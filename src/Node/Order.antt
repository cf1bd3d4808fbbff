-- ===== src/Node/Order.antt =====
-- The order of the node list of node.c: priorities never rise along it, and ids are distinct.
use freeswitch_mod_cpg.Base.{
  ℕ, ℤ, ◌≤ℤ◌, ltb_ℤ, ◌≡◌, ◌≢◌, subst, true, inl, inr, List, [], ◌∷◌, arith, ◌==◌, ==_iff,
  Bool-cases, All,
}
use freeswitch_mod_cpg.Types.{Node}
use freeswitch_mod_cpg.Node.{node_search, is_null, node_insert, node_unlink}

abbrev pub AllBelow : ℤ → List Node → Type 0
AllBelow p l = All (λ n. n.priority ≤ℤ p) l

abbrev pub Fresh : ℕ → List Node → Type 0
Fresh id l = All (λ n. n.nodeid ≢ id) l

-- Priorities do not rise, and no id stands twice or is 0.
abbrev pub IsPriorityList : List Node → Type 0
IsPriorityList [] = Unit {0}
IsPriorityList (n ∷ rest) =
    AllBelow n.priority rest × Fresh n.nodeid rest × (n.nodeid ≢ 0) × IsPriorityList rest

pub AllBelow-mono : (p q : ℤ) (l : List Node) → p ≤ℤ q → AllBelow p l → AllBelow q l
AllBelow-mono p q [] h b = tt
AllBelow-mono p q (n ∷ rest) h b = (omega arith, AllBelow-mono p q rest h b.1)

pub node_search-Fresh : (l : List Node) (id : ℕ) → is_null (node_search l id) ≡ true → Fresh id l
unfolding node_search
node_search-Fresh [] id h = tt
node_search-Fresh (n ∷ rest) id h = ground (arith, node_search-Fresh rest id)

AllBelow-insert :
    (p : ℤ) (l : List Node) (n : Node)
    → AllBelow p l
    → n.priority ≤ℤ p
    → AllBelow p (node_insert l n)
unfolding node_insert
AllBelow-insert p [] n b h = (h, tt)
AllBelow-insert p (x ∷ rest) n b h = ground (arith, AllBelow-insert p rest n b.1 h)

Fresh-insert :
    (id : ℕ) (l : List Node) (n : Node) → Fresh id l → n.nodeid ≢ id → Fresh id (node_insert l n)
unfolding node_insert
Fresh-insert id [] n b h = (h, tt)
Fresh-insert id (x ∷ rest) n b h = ground (arith, Fresh-insert id rest n b.1 h)

pub node_insert-IsPriorityList :
    (l : List Node) (n : Node)
    → Fresh n.nodeid l
    → n.nodeid ≢ 0
    → IsPriorityList l
    → IsPriorityList (node_insert l n)
unfolding node_insert
node_insert-IsPriorityList [] n f z h = (tt, tt, z, tt)
node_insert-IsPriorityList (x ∷ rest) n f z h = elim (Bool-cases (ltb_ℤ n.priority x.priority)) [
  | inl lower ↦ rw lower (
    AllBelow-insert x.priority rest n h.0 (ground arith),
    Fresh-insert x.nodeid rest n h.1 (ground arith),
    h.2,
    node_insert-IsPriorityList rest n f.1 z h.3,
  )
  | inr upper ↦
      rw upper
        ((ground arith, AllBelow-mono x.priority n.priority rest (ground arith) h.0), f, z, h)
]

AllBelow-unlink : (p : ℤ) (l : List Node) (id : ℕ) → AllBelow p l → AllBelow p (node_unlink l id)
unfolding node_unlink
AllBelow-unlink p [] id b = tt
AllBelow-unlink p (x ∷ rest) id b = ground (arith, AllBelow-unlink p rest id b.1)

Fresh-unlink : (j : ℕ) (l : List Node) (id : ℕ) → Fresh j l → Fresh j (node_unlink l id)
unfolding node_unlink
Fresh-unlink j [] id b = tt
Fresh-unlink j (x ∷ rest) id b = ground (arith, Fresh-unlink j rest id b.1)

pub node_unlink-IsPriorityList :
    (l : List Node) (id : ℕ) → IsPriorityList l → IsPriorityList (node_unlink l id)
unfolding node_unlink
node_unlink-IsPriorityList [] id h = tt
node_unlink-IsPriorityList (x ∷ rest) id h = elim (Bool-cases (x.nodeid == id)) [
  | inl hit ↦ rw hit h.3
  | inr miss ↦ rw miss (
    AllBelow-unlink x.priority rest id h.0,
    Fresh-unlink x.nodeid rest id h.1,
    h.2,
    node_unlink-IsPriorityList rest id h.3,
  )
]

-- Unlinking an id leaves no node with it.
pub Fresh-unlink_self : (l : List Node) (id : ℕ) → IsPriorityList l → Fresh id (node_unlink l id)
unfolding node_unlink
Fresh-unlink_self [] id h = tt
Fresh-unlink_self (x ∷ rest) id h = elim (Bool-cases (x.nodeid == id)) [
  | inl hit ↦ rw hit (subst (λ j. Fresh j rest) ((==_iff x.nodeid id).0 hit) h.1)
  | inr miss ↦ rw miss (ground arith, Fresh-unlink_self rest id h.3)
]
