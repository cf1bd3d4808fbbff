-- ===== src/Links/Remove.antt =====
-- `node_remove` of node.c on linked nodes.
use freeswitch_mod_cpg.Base.{
  ℕ, zero, suc, ◌<◌, ◌≡◌, refl, inl, inr, true, false, Bool-cases, none, some, [], ◌∷◌, length,
  arith, ◌==◌, if◌then◌else◌,
}
use freeswitch_mod_cpg.Types.{Node}
use freeswitch_mod_cpg.World.{Env, World, entry, done, free_node}
use freeswitch_mod_cpg.World.Returns.{Returns, returns, weaken}
use freeswitch_mod_cpg.Node.{node_search, node_unlink, is_null, node_remove}
use freeswitch_mod_cpg.Links.{Ptr, null, cell, Heap, write, free, seek, unlink, remove, ◌>>=◌}
use freeswitch_mod_cpg.Links.Chain.{
  Holds, Cells, nodes_of, has, ◌∉◌, SameOutside, Chain, nil, cons, not_null, load-Holds,
  set_next-Holds, frame,
}

-- The cells without the first one with this id.
unfoldable pub without : Cells → ℕ → Cells
without [] id = []
without (x ∷ xs) id = let rest = without xs id in if (x.1).nodeid == id then xs else x ∷ rest

nodes_of-without : (xs : Cells) (id : ℕ) → nodes_of (without xs id) ≡ node_unlink (nodes_of xs) id
unfolding without node_unlink
nodes_of-without [] id = refl
nodes_of-without (x ∷ xs) id = ground (arith, nodes_of-without xs id)

not_in-without : (b : Ptr) (xs : Cells) (id : ℕ) → b ∉ xs → b ∉ without xs id
unfolding without
not_in-without b [] id out = refl
not_in-without b (x ∷ xs) id out = ground (arith, not_in-without b xs id)

without-missing :
    (xs : Cells) (id : ℕ) → is_null (node_search (nodes_of xs) id) ≡ true → without xs id ≡ xs
unfolding without node_search
without-missing [] id m = refl
without-missing (x ∷ xs) id m = ground (arith, without-missing xs id)

-- The cells of `xs` that are not among `ys` hold nothing.
abbrev pub Freed : Heap → Cells → Cells → Type 0
Freed g xs ys = (a : Ptr) → has a xs ≡ true → a ∉ ys → g a ≡ none

module _ (env : Env) where
  -- The world after the node's id is told to `free`.
  abbrev pub told : ℕ → World → World
  told id w = record w { log = entry (free_node id) (env.answer w.log (free_node id)) ∷ w.log }

  pub free-Holds :
      {h : Heap} {p q : Ptr} {n : Node} (w : World)
      → Holds h p n q
      → free env p h w ≡ done (tt, write h p none) (told n.nodeid w)
  unfolding free
  free-Holds w e = rw (load-Holds e w) refl

  unlink-null :
      {h : Heap} (prev : Ptr) {oldlist : Ptr} (w : World)
      → unlink env oldlist (prev, null) h w ≡ done (oldlist, h) w
  unfolding unlink
  unlink-null prev w = refl

  module _ (id : ℕ) (w : World) where
    abbrev after : Cells → World
    after xs = if is_null (node_search (nodes_of xs) id) then w else told id w

    -- The links behind the cell `prev`.
    abbrev Unlinked : Heap → Ptr × Node → Cells → Ptr → Ptr × Heap → World → Type 0
    Unlinked h prev xs oldlist (r, g) w' =
        (r ≡ oldlist)
        × (w' ≡ after xs)
        × Chain g prev.0 (prev ∷ without xs id)
        × SameOutside (prev ∷ xs) h g
        × Freed g xs (without xs id)

    unlink-Unlinked :
        {h : Heap} {prev cur q oldlist : Ptr} {n m : Node} (xs : Cells)
        → Holds h prev n cur
        → prev ∉ ((cur, m) ∷ xs)
        → Holds h cur m q
        → cur ∉ xs
        → Chain h q xs
        → (m.nodeid == id) ≡ true
        → Returns
            (Unlinked h (prev, n) ((cur, m) ∷ xs) oldlist)
            (unlink env oldlist (prev, cur) h w)
    unfolding unlink without node_search write
    unlink-Unlinked {h} {prev} {cur} {q} {n = n} {m = m} xs e out e' out' s hit =
        let h1 = write h prev (some (cell n q)) in
        let e1 : Holds h1 cur m q = record { ne_null = e'.ne_null; at = ground (arith, e'.at) } in
        let g = write h1 cur none in
        let e2 : Holds g prev n q = record { ne_null = e.ne_null; at = ground arith } in
        rw (not_null e', not_null e, load-Holds e' w, set_next-Holds e q w, free-Holds w e1)
          (returns (
            refl,
            ground arith,
            rw hit (cons {xs = xs} e2 (ground arith) (frame s (ground arith))),
            ground arith,
            λ b. ground arith,
          ))

    past-Unlinked :
        {h : Heap} {prev curr oldlist : Ptr} {n m : Node} (xs : Cells)
        → Holds h prev n curr
        → prev ∉ ((curr, m) ∷ xs)
        → curr ∉ xs
        → (m.nodeid == id) ≡ false
        → (r : Ptr × Heap) (w' : World) → Unlinked h (curr, m) xs oldlist r w'
        → Unlinked h (prev, n) ((curr, m) ∷ xs) oldlist r w'
    unfolding without node_search
    past-Unlinked {prev} {curr} {n} {m} xs e out out' miss r w'
          (same, still, chain, outside, freed) =
        let e' : Holds r.1 prev n curr = record {
          ne_null = e.ne_null;
          at = ground (arith, e.at, outside prev);
        } in
        (
          same,
          rw miss still,
          rw miss (cons e' (ground (arith, not_in-without prev xs id)) chain),
          λ b i. outside b (ground arith),
          λ b i j. freed b (ground arith) (ground arith),
        )

    seek-Unlinked :
        (k : ℕ) {h : Heap} {prev curr oldlist : Ptr} {n : Node} {xs : Cells}
        → Holds h prev n curr
        → prev ∉ xs
        → Chain h curr xs
        → length xs < k
        → Returns
            (Unlinked h (prev, n) xs oldlist)
            ((seek k prev curr id >>= unlink env oldlist) h w)
    unfolding seek without node_search
    seek-Unlinked zero e out s fuel = absurd (omega arith)
    seek-Unlinked (suc k) {prev} e out nil fuel =
        rw (unlink-null prev w)
          (returns (refl, refl, cons e refl nil, λ b i. refl, λ b i j. absurd (cc)))
    seek-Unlinked (suc k) e out (cons {n = m} {xs} e' out' s) fuel =
        rw (not_null e', load-Holds e' w)
          (elim (Bool-cases (m.nodeid == id)) [
            | inl hit ↦ rw hit (unlink-Unlinked xs e out e' out' s hit)
            | inr miss ↦ rw miss (
                weaken (seek-Unlinked k e' out' s (omega arith)) (past-Unlinked xs e out out' miss))
          ])

    abbrev Removed : Heap → Cells → Ptr × Heap → World → Type 0
    Removed h xs (r, g) w' =
        (w' ≡ after xs)
        × Chain g r (without xs id)
        × SameOutside xs h g
        × Freed g xs (without xs id)

    unlink-first :
        {h : Heap} {p q : Ptr} {m : Node} (xs : Cells)
        → Holds h p m q
        → p ∉ xs
        → Chain h q xs
        → (m.nodeid == id) ≡ true
        → Returns (Removed h ((p, m) ∷ xs)) (unlink env p (null, p) h w)
    unfolding unlink without node_search write
    unlink-first xs e out s hit =
        rw (not_null e, load-Holds e w, free-Holds w e)
          (returns (ground arith, rw hit (frame s (ground arith)), ground arith, λ b. ground arith))

    seek-Removed :
        (k : ℕ) {h : Heap} {p : Ptr} {xs : Cells}
        → Chain h p xs
        → length xs < k
        → Returns (Removed h xs) (remove env k p id h w)
    unfolding remove seek without node_search
    seek-Removed zero s fuel = absurd (omega arith)
    seek-Removed (suc k) nil fuel =
        rw (unlink-null null w) (returns (refl, nil, λ b i. refl, λ b i j. absurd (cc)))
    seek-Removed (suc k) (cons {p} {n = m} {xs} e out s) fuel =
        rw (not_null e, load-Holds e w)
          (elim (Bool-cases (m.nodeid == id)) [
            | inl hit ↦ rw hit (unlink-first xs e out s hit)
            | inr miss ↦ rw miss (
                weaken (seek-Unlinked k e out s (omega arith))
                  λ r w' (same, still, chain, outside, freed). (
                    rw miss still,
                    rw (same, miss) chain,
                    outside,
                    λ b i j. freed b (ground arith) (ground arith),
                  ))
          ])

    node_remove-after :
        (xs : Cells)
        → node_remove env (nodes_of xs) id w ≡ done (nodes_of (without xs id)) (after xs)
    unfolding node_remove
    node_remove-after xs = elim (Bool-cases (is_null (node_search (nodes_of xs) id))) [
      | inl m ↦ rw (m, without-missing xs id m) refl
      | inr m ↦ rw (m, nodes_of-without xs id) refl
    ]

    -- Where p heads a chain of fewer nodes than the fuel: `remove` returns, in the world that
    -- `node_remove` returns in for the nodes of the chain, its result heads a chain of just the nodes
    -- that `node_remove` gives, the addresses of the chain that are not in the new one hold nothing,
    -- and no address outside of the chain changes.
    pub remove-node_remove :
        (k : ℕ) {h : Heap} {p : Ptr} {xs : Cells}
        → Chain h p xs
        → length xs < k
        → Returns
            (λ (q, g) w'.
              (ys : Cells) × Chain g q ys
              × (node_remove env (nodes_of xs) id w ≡ done (nodes_of ys) w')
              × SameOutside xs h g
              × Freed g xs ys)
            (remove env k p id h w)
    remove-node_remove k {xs} s fuel =
        weaken (seek-Removed k s fuel) λ r w' (still, chain, outside, freed).
          (without xs id, chain, rw still (node_remove-after xs), outside, freed)
