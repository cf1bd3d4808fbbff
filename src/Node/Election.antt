-- ===== src/Node/Election.antt =====
-- The election behind `node_first` of node.c: it depends on the nodes known, not on the order in
-- which they were heard of.
use freeswitch_mod_cpg.Base.{ℕ, ℤ, ◌≤ℤ◌, ◌≡◌, ◌∙◌, sym, ap, refl, some, List, [], ◌∷◌, arith}
use freeswitch_mod_cpg.Types.{Node}
use freeswitch_mod_cpg.Node.{node_first}
use freeswitch_mod_cpg.Node.Order.{IsPriorityList}
use freeswitch_mod_cpg.Node.Contents.{priority_of, priority_of-first, node_first-at_least}

-- The same nodes are known by the same priorities.
abbrev pub SameView : List Node → List Node → Type 0
SameView l m = (id : ℕ) → priority_of l id ≡ priority_of m id

-- No two nodes have one priority.
abbrev pub HasDistinctPriorities : List Node → Type 0
HasDistinctPriorities l =
    (i j : ℕ) (p : ℤ) → priority_of l i ≡ some p → priority_of l j ≡ some p → i ≡ j

priority_of-nil : (id : ℕ) (p : ℤ) → priority_of [] id ≡ some p → ⊥
unfolding priority_of
priority_of-nil id p e = cc

≤ℤ_antisym : (p q : ℤ) → p ≤ℤ q → q ≤ℤ p → p ≡ q
≤ℤ_antisym p q h k = ground arith

-- Two lists in priority order with distinct ids that know the same nodes, no two of one priority,
-- have the same first node, or are both empty.
pub node_first_agrees :
    (l m : List Node)
    → IsPriorityList l
    → IsPriorityList m
    → SameView l m
    → HasDistinctPriorities l
    → node_first l ≡ node_first m
node_first_agrees [] [] hl hm same distinct = refl
node_first_agrees [] (n ∷ m) hl hm same distinct =
    absurd (priority_of-nil _ _ (same _ ∙ priority_of-first n m))
node_first_agrees (n ∷ l) [] hl hm same distinct =
    absurd (priority_of-nil _ _ (sym (same _) ∙ priority_of-first n l))
node_first_agrees (a ∷ l) (b ∷ m) hl hm same distinct =
    let p = priority_of-first a l in
    let q = priority_of-first b m in
    let q' = same (node_first (b ∷ m)) ∙ q in
    let p' = sym (same (node_first (a ∷ l))) ∙ p in
    let b_le_a = node_first-at_least (a ∷ l) a.priority b.priority _ hl p q' in
    let a_le_b = node_first-at_least (b ∷ m) b.priority a.priority _ hm q p' in
    distinct _ _ a.priority p (q' ∙ ap some (≤ℤ_antisym b.priority a.priority b_le_a a_le_b))
