-- ===== src/Node/Memory.antt =====
-- `node_add`, `node_remove` and `node_remove_all` of node.c with their calls of malloc and free.
use freeswitch_mod_cpg.Base.{
  ℕ, ◌+◌, ◌-◌, ℤ, is_zero, ◌≡◌, ◌≢◌, refl, true, false, ◌⊎◌, inl, inr, Option, none, some, List, [],
  ◌∷◌, arith, ◌==◌, Bool-cases, if◌then◌else◌,
}
use freeswitch_mod_cpg.Types.{Node}
use freeswitch_mod_cpg.World.{Env, World, Log, Call, malloc, free_node, success}
use freeswitch_mod_cpg.World.Returns.{Returns, returns, weaken}
use freeswitch_mod_cpg.Node.{
  node_search, is_null, list_entries, sizeof_node, node_add, node_remove, remove_all_loop,
  node_remove_all,
}
use freeswitch_mod_cpg.Node.Order.{
  IsPriorityList, node_search-Fresh, node_insert-IsPriorityList, node_unlink-IsPriorityList,
}
use freeswitch_mod_cpg.Node.Contents.{
  priority_of, priority_of-Fresh, priority_of-insert, priority_of-unlink, node_search-found,
}

-- The virtual ip and the rings of arpator.c are left alone.
abbrev pub KeepsState : World → World → Type 0
KeepsState w w' = (w'.vip ≡ w.vip) × (w'.rings ≡ w.rings)

abbrev pub known_or {ℓ} : {A : Type ℓ} → Option A → A → A
known_or none p = p
known_or (some q) p = q

-- What `node_add` makes of the list `l`: with no memory for a new node, NULL; else a list that
-- knows the id, by its old priority if it was known already, and every other id as before.
abbrev pub Added : Env → List Node → ℕ → ℤ → World → List Node → Type 0
Added env l id p w l' =
    ((is_zero (env.answer w.log (malloc sizeof_node)) ≡ true)
      × (priority_of l id ≡ none)
      × (l' ≡ []))
    ⊎ ((j : ℕ)
        → priority_of l' j
          ≡ (if id == j then some (known_or (priority_of l id) p) else priority_of l j))

module _ (env : Env) (l : List Node) (id : ℕ) (p : ℤ) (w : World) (nz : id ≢ 0)
    (h : IsPriorityList l) where
  node_add-absent :
      is_null (node_search l id) ≡ true
      → Returns
          (λ l' w'. KeepsState w w' × IsPriorityList l' × Added env l id p w l')
          (node_add env l id p w)
  unfolding node_add
  node_add-absent absent =
      let f = node_search-Fresh l id absent in
      let unknown = priority_of-Fresh l id f in
      elim (Bool-cases (is_zero (env.answer w.log (malloc sizeof_node)))) [
        | inl full ↦ rw (absent, full) (returns ((refl, refl), tt, inl (refl, unknown, refl)))
        | inr room ↦
            rw (absent, room)
              (returns (
                (refl, refl),
                node_insert-IsPriorityList l _ f nz h,
                inr (λ j.
                    rw unknown (priority_of-insert l (record { nodeid = id; priority = p }) j f)),
              ))
      ]

  node_add-present :
      is_null (node_search l id) ≡ false
      → Returns
          (λ l' w'. KeepsState w w' × IsPriorityList l' × Added env l id p w l')
          (node_add env l id p w)
  unfolding node_add
  node_add-present present =
      rw present (returns ((refl, refl), h, inr (λ j. ground (arith, node_search-found l id))))

  -- `node_add` of an id that is not 0, to a list in priority order with distinct ids, returns,
  -- changes neither the virtual ip nor the rings of arpator.c, and gives a list in priority order
  -- with distinct ids. That list is NULL if the id was not known and malloc fails. Otherwise it
  -- knows the id, with the old priority if it was known before and the given one if not, and it
  -- knows of every other id what the given list does.
  pub node_add-Added :
      Returns
        (λ l' w'. KeepsState w w' × IsPriorityList l' × Added env l id p w l')
        (node_add env l id p w)
  node_add-Added = elim (Bool-cases (is_null (node_search l id))) [
    | inl absent ↦ node_add-absent absent
    | inr present ↦ node_add-present present
  ]

module _ (env : Env) (l : List Node) (id : ℕ) (w : World) (h : IsPriorityList l) where
  -- `node_remove`, from a list in priority order with distinct ids, returns, changes neither the
  -- virtual ip nor the rings of arpator.c, and gives a list in priority order with distinct ids
  -- that does not know the id and knows of every other id what the given list does.
  pub node_remove-priority_of :
      Returns
        (λ l' w'.
          KeepsState w w'
          × IsPriorityList l'
          × ((j : ℕ) → priority_of l' j ≡ (if id == j then none else priority_of l j)))
        (node_remove env l id w)
  unfolding node_remove
  node_remove-priority_of = elim (Bool-cases (is_null (node_search l id))) [
    | inl absent ↦ rw absent (
        returns (
          (refl, refl),
          h,
          λ j. ground (arith, priority_of-Fresh l id (node_search-Fresh l id absent)),
        ))
    | inr present ↦ rw present (
        returns ((refl, refl), node_unlink-IsPriorityList l id h, λ j. priority_of-unlink l id j h))
  ]

freed_by : Call → ℕ
freed_by (free_node id) = 1
freed_by _ = 0

-- How many nodes have been handed to free.
unfoldable pub freed : Log → ℕ
unfolding freed_by
freed [] = 0
freed (e ∷ log) = freed_by e.call + freed log

module _ (env : Env) where
  -- With a node behind it, the loop frees that one and all but the last of the rest.
  freed-remove_all_loop :
      (prev : ℕ) (l : List Node) (w : World)
      → Returns
          (λ s w'. (s ≡ success) × KeepsState w w' × (freed w'.log ≡ list_entries l + freed w.log))
          (remove_all_loop env (some prev) l w)
  unfolding remove_all_loop list_entries freed
  freed-remove_all_loop prev [] w = returns (refl, (refl, refl), omega arith)
  freed-remove_all_loop prev (current ∷ rest) w =
      weaken
        (freed-remove_all_loop current.nodeid rest (record w {
          log =
              record { call = free_node prev; answer = env.answer w.log (free_node prev) } ∷ w.log;
        }))
        (λ s w' (e, k, f). (e, k, omega arith))

  -- `node_remove_all` succeeds, changes neither the virtual ip nor the rings of arpator.c, and
  -- frees one node less than the list has: the last node of a list that is not empty is leaked.
  pub freed-node_remove_all :
      (l : List Node) (w : World)
      → Returns
          (λ s w'.
            (s ≡ success) × KeepsState w w' × (freed w'.log ≡ list_entries l - 1 + freed w.log))
          (node_remove_all env l w)
  unfolding node_remove_all list_entries
  freed-node_remove_all [] w = returns (refl, (refl, refl), omega arith)
  freed-node_remove_all (current ∷ rest) w =
      weaken (freed-remove_all_loop current.nodeid rest w) (λ s w' (e, k, f). (e, k, omega arith))
