-- ===== src/Node/Contents.antt =====
-- The contents of the node list of node.c: a finite map from node ids to priorities.
use freeswitch_mod_cpg.Base.{
  ℕ, suc, ℤ, ◌≡◌, ◌≢◌, refl, Option, none, some, List, [], ◌∷◌, arith, ◌==◌, if◌then◌else◌, ◌≤ℤ◌,
  is_none,
}
use freeswitch_mod_cpg.Types.{Node}
use freeswitch_mod_cpg.Node.{
  node_search, is_null, node_insert, node_unlink, node_first, list_entries,
}
use freeswitch_mod_cpg.Node.Order.{AllBelow, Fresh, IsPriorityList}

-- What the list stands for: the priority known for an id.
unfoldable pub priority_of : List Node → ℕ → Option ℤ
priority_of [] id = none
priority_of (n ∷ rest) id = if n.nodeid == id then some n.priority else priority_of rest id

pub priority_of-Fresh : (l : List Node) (id : ℕ) → Fresh id l → priority_of l id ≡ none
unfolding priority_of
priority_of-Fresh [] id f = refl
priority_of-Fresh (n ∷ rest) id f = ground (arith, priority_of-Fresh rest id f.1)

pub priority_of-insert :
    (l : List Node) (n : Node) (id : ℕ)
    → Fresh n.nodeid l
    → priority_of (node_insert l n) id
      ≡ (if n.nodeid == id then some n.priority else priority_of l id)
unfolding priority_of node_insert
priority_of-insert [] n id f = refl
priority_of-insert (x ∷ rest) n id f = ground (arith, priority_of-insert rest n id f.1)

pub priority_of-unlink :
    (l : List Node) (j id : ℕ)
    → IsPriorityList l
    → priority_of (node_unlink l j) id ≡ (if j == id then none else priority_of l id)
unfolding priority_of node_unlink
priority_of-unlink [] j id h = ground arith
priority_of-unlink (x ∷ rest) j id h =
    ground (arith, priority_of-unlink rest j id h.3, priority_of-Fresh rest x.nodeid h.1)

pub node_search-found :
    (l : List Node) (id : ℕ) → is_null (node_search l id) ≡ is_none (priority_of l id)
unfolding priority_of node_search
node_search-found [] id = refl
node_search-found (x ∷ rest) id = ground (arith, node_search-found rest id)

-- Inserting a node whose id is not in the list and unlinking that id again gives the list back.
pub unlink-insert :
    (l : List Node) (n : Node) → Fresh n.nodeid l → node_unlink (node_insert l n) n.nodeid ≡ l
unfolding node_unlink node_insert
unlink-insert [] n f = ground arith
unlink-insert (x ∷ rest) n f = ground (arith, unlink-insert rest n f.1)

pub list_entries-insert :
    (l : List Node) (n : Node) → list_entries (node_insert l n) ≡ suc (list_entries l)
unfolding list_entries node_insert
list_entries-insert [] n = refl
list_entries-insert (x ∷ rest) n = ground (arith, list_entries-insert rest n)

-- The first node has the highest priority of all that are known.
pub node_first-max :
    (l : List Node) (p : ℤ)
    → IsPriorityList l
    → priority_of l (node_first l) ≡ some p
    → AllBelow p l
unfolding priority_of node_first
node_first-max [] p h e = tt
node_first-max (x ∷ rest) p h e = ground (arith, h.0)

-- No known node is hidden: a node with the highest priority, alone in having it, comes first.
AllBelow-priority_of :
    (l : List Node) (p q : ℤ) (id : ℕ) → AllBelow p l → priority_of l id ≡ some q → q ≤ℤ p
unfolding priority_of
AllBelow-priority_of [] p q id b e = cc
AllBelow-priority_of (x ∷ rest) p q id b e = ground (arith, AllBelow-priority_of rest p q id b.1)

-- No known node has a higher priority than the first one, where that is known.
pub node_first-at_least :
    (l : List Node) (p q : ℤ) (id : ℕ)
    → IsPriorityList l
    → priority_of l (node_first l) ≡ some p
    → priority_of l id ≡ some q
    → q ≤ℤ p
node_first-at_least l p q id h e f = AllBelow-priority_of l p q id (node_first-max l p h e) f

pub priority_of-first :
    (n : Node) (rest : List Node) → priority_of (n ∷ rest) (node_first (n ∷ rest)) ≡ some n.priority
unfolding priority_of node_first
priority_of-first n rest = ground arith

-- In a list in priority order with distinct ids that is not empty, `node_first` gives the id of a
-- node of the list, and no node of the list has a higher priority.
pub node_first-highest :
    (l : List Node)
    → IsPriorityList l
    → l ≢ []
    → (p : ℤ) × (priority_of l (node_first l) ≡ some p)
      × ((id : ℕ) (q : ℤ) → priority_of l id ≡ some q → q ≤ℤ p)
node_first-highest [] h some_node = absurd (some_node refl)
node_first-highest (n ∷ rest) h some_node = (
  n.priority,
  priority_of-first n rest,
  λ id q e. node_first-at_least (n ∷ rest) n.priority q id h (priority_of-first n rest) e,
)
