-- ===== src/Node/Announcements.antt =====
-- What `node_add` of node.c makes of announcements that come in any order.
use freeswitch_mod_cpg.Base.{
  ℕ, ℤ, is_zero, ◌≡◌, ◌≢◌, ◌∙◌, sym, refl, inl, inr, Option, none, some, List, [], ◌∷◌, All, arith,
  ◌==◌, false, if◌then◌else◌,
}
use freeswitch_mod_cpg.Types.{Node}
use freeswitch_mod_cpg.World.{Env, World, Log, M, malloc, ◌>>=◌, pure}
use freeswitch_mod_cpg.World.Returns.{Returns, returns, bind, weaken}
use freeswitch_mod_cpg.Node.{sizeof_node, node_add, node_first}
use freeswitch_mod_cpg.Node.Order.{IsPriorityList}
use freeswitch_mod_cpg.Node.Contents.{priority_of}
use freeswitch_mod_cpg.Node.Memory.{Added, node_add-Added}
use freeswitch_mod_cpg.Node.Election.{node_first_agrees}

-- A node with its priority, as a state message announces it.
abbrev pub Announcement : Type 0
Announcement = ℕ × ℤ

-- The first that is heard of a node.
abbrev pub first_of : List Announcement → ℕ → Option ℤ
first_of [] j = none
first_of ((id, p) ∷ heard) j = if id == j then some p else first_of heard j

-- The additions to a list, in the order of the announcements.
unfoldable pub add_all : Env → List Announcement → List Node → M (List Node)
add_all env [] l = pure l
add_all env ((id, p) ∷ heard) l = node_add env l id p >>= add_all env heard

-- Memory for a new node is always there.
abbrev pub HasMemory : Env → Type 0
HasMemory env = (log : Log) → is_zero (env.answer log (malloc sizeof_node)) ≡ false

abbrev pub AreNodes : List Announcement → Type 0
AreNodes heard = All (λ a. a.0 ≢ 0) heard

abbrev or_else : Option ℤ → Option ℤ → Option ℤ
or_else none q = q
or_else (some p) q = some p

-- What is known afterwards.
abbrev pub Knows : List Announcement → List Node → List Node → Type 0
Knows heard l l' = (j : ℕ) → priority_of l' j ≡ or_else (priority_of l j) (first_of heard j)

Knows-after :
    (env : Env) (id : ℕ) (p : ℤ) (heard : List Announcement) (l l1 l' : List Node) (w : World)
    → HasMemory env
    → Added env l id p w l1
    → Knows heard l1 l'
    → Knows ((id, p) ∷ heard) l l'
Knows-after env id p heard l l1 l' w room (inl (full, unknown, lost)) k j =
    absurd (ground (arith, room w.log))
Knows-after env id p heard l l1 l' w room (inr added) k j = k j ∙ ground (arith, added j)

add_all-Knows :
    (env : Env) (heard : List Announcement) (l : List Node) (w : World)
    → HasMemory env
    → AreNodes heard
    → IsPriorityList l
    → Returns (λ l' w'. IsPriorityList l' × Knows heard l l') (add_all env heard l w)
unfolding add_all
add_all-Knows env [] l w room nodes h = returns (h, λ j. ground arith)
add_all-Knows env ((id, p) ∷ heard) l w room nodes h =
    bind (node_add-Added env l id p w nodes.0 h) λ l1 w1 (keeps, h1, added).
      weaken (add_all-Knows env heard l1 w1 room nodes.1 h1)
        (λ l' w2 (h2, k). (h2, Knows-after env id p heard l l1 l' w room added k))

priority_of-nothing : (j : ℕ) → priority_of [] j ≡ none
unfolding priority_of
priority_of-nothing j = refl

-- No two nodes are heard of with one priority.
abbrev pub HasDistinctAnnouncements : List Announcement → Type 0
HasDistinctAnnouncements heard =
    (i j : ℕ) (p : ℤ) → first_of heard i ≡ some p → first_of heard j ≡ some p → i ≡ j

-- Two nodes that start without a list and hear announcements, each in an order of its own, return
-- with lists that have the same node first. That is so where memory for new nodes is there, no id
-- is 0, what is heard first of each node is the same at both, and no two nodes are heard of first
-- with one priority.
pub add_all-agrees :
    (env1 env2 : Env) (heard1 heard2 : List Announcement) (w1 w2 : World)
    → HasMemory env1
    → HasMemory env2
    → AreNodes heard1
    → AreNodes heard2
    → ((j : ℕ) → first_of heard1 j ≡ first_of heard2 j)
    → HasDistinctAnnouncements heard1
    → Returns
        (λ l1 w1'. Returns (λ l2 w2'. node_first l1 ≡ node_first l2) (add_all env2 heard2 [] w2))
        (add_all env1 heard1 [] w1)
add_all-agrees env1 env2 heard1 heard2 w1 w2 room1 room2 nodes1 nodes2 same distinct =
    weaken (add_all-Knows env1 heard1 [] w1 room1 nodes1 tt) λ l1 w1' (h1, k1).
      weaken (add_all-Knows env2 heard2 [] w2 room2 nodes2 tt) λ l2 w2' (h2, k2).
        let e1 = λ (j : ℕ). rw (priority_of-nothing j) at (k1 j) in
        let e2 = λ (j : ℕ). rw (priority_of-nothing j) at (k2 j) in
        node_first_agrees l1 l2 h1 h2 (λ j. e1 j ∙ same j ∙ sym (e2 j))
          (λ i j p a b. distinct i j p (sym (e1 i) ∙ a) (sym (e1 j) ∙ b))
