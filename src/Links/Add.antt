-- ===== src/Links/Add.antt =====
-- `node_add` of node.c on linked nodes.
use freeswitch_mod_cpg.Base.{
  ℕ, zero, suc, ◌<◌, ℤ, pos, ltb_ℤ, is_zero, ◌≡◌, ◌≢◌, ◌∙◌, refl, ap, inl, inr, Bool-cases, none,
  some, [], ◌∷◌, length, arith, ◌==◌,
}
use freeswitch_mod_cpg.Types.{Node}
use freeswitch_mod_cpg.World.{Env, World, done, malloc}
use freeswitch_mod_cpg.World.Returns.{Returns, returns, bind, weaken}
use freeswitch_mod_cpg.Node.{sizeof_node, node_insert, node_search, is_null, node_add}
use freeswitch_mod_cpg.Links.{
  Ptr, null, cell, Heap, write, walk, link, fill, fill_and_link, add, ◌>>=◌,
}
use freeswitch_mod_cpg.Links.Chain.{
  Holds, Cells, nodes_of, ◌∉◌, SameOutside, Chain, nil, cons, not_null, null-Chain, load-Holds,
  set_next-Holds, frame, frame-write, not_in-unused, Refines,
}
use freeswitch_mod_cpg.Links.Find.{find-node_search}
use freeswitch_mod_cpg.Links.Insert.{insert, nodes_of-insert, has-insert, walk-Linked}

-- The new node stands among the cells where `insert` puts it.
abbrev Inserted : Heap → Cells → Ptr × Node → World → Ptr × Heap → World → Type 0
Inserted h xs new w (q, g) w' = (w' ≡ w) × Chain g q (insert xs new) × SameOutside (new ∷ xs) h g

module _ {h : Heap} (a : Ptr) (old new : Node) (z : Ptr) (fresh : Holds h a old z) (w : World) where
  fill-front :
      {p : Ptr} {xs : Cells}
      → Chain h p xs
      → a ∉ xs
      → insert xs (a, new) ≡ (a, new) ∷ xs
      → Returns (Inserted h xs (a, new) w) (fill p a new.nodeid new.priority (null, p) h w)
  unfolding fill link write
  fill-front {p} {xs} s apart first =
      let h1 = write h a (some (cell new z)) in
      let e1 : Holds h1 a new z = record { ne_null = fresh.ne_null; at = ground arith } in
      let g = write h1 a (some (cell new p)) in
      let f1 : Holds g a new p = record { ne_null = fresh.ne_null; at = ground arith } in
      rw (load-Holds fresh w, set_next-Holds e1 p w)
        (returns (refl, rw first (cons f1 apart (frame s (ground arith))), ground arith))

  walk-Inserted :
      (k : ℕ) {p : Ptr} {xs : Cells}
      → Chain h p xs
      → a ∉ xs
      → length xs < k
      → Returns
          (Inserted h xs (a, new) w)
          ((walk k null p new.priority >>= fill p a new.nodeid new.priority) h w)
  unfolding walk insert
  walk-Inserted zero s apart fuel = absurd (omega arith)
  walk-Inserted (suc k) nil apart fuel = fill-front nil apart refl
  walk-Inserted (suc k) (cons {p} {n = m} {xs} e out s) apart fuel =
      rw (not_null e, load-Holds e w)
        (elim (Bool-cases (ltb_ℤ new.priority m.priority)) [
          | inl lower ↦ rw lower (
              weaken
                (walk-Linked a old new z p fresh w k e out s (ground arith) (ground arith)
                  (omega arith))
                (λ r w' (same, still, chain, outside). (still, rw (same, lower) chain, outside)))
          | inr upper ↦ rw upper (fill-front (cons e out s) apart (rw upper refl))
        ])

-- An unused address takes the new node.
fill_and_link-Inserted :
    {h : Heap} (a : Ptr) (new : Node)
    → a ≢ null
    → h a ≡ none
    → (w : World) (k : ℕ) {p : Ptr} {xs : Cells} → Chain h p xs
    → length xs < k
    → Returns (Inserted h xs (a, new) w) (fill_and_link k p new.nodeid new.priority a h w)
unfolding write
fill_and_link-Inserted {h} a new ne unused w k {p} {xs} s fuel =
    let blank : Node = record { nodeid = 0; priority = pos 0 } in
    let apart : a ∉ xs = not_in-unused a s unused in
    let fresh : Holds (write h a (some (cell blank null))) a blank null = record {
      ne_null = ne;
      at = ground arith;
    } in
    weaken
      (walk-Inserted a blank new null fresh w k (frame-write a (some (cell blank null)) s apart)
        apart fuel)
      (λ r w' (still, chain, outside). (still, chain, λ b i. ground (arith, outside b i)))

of_Inserted :
    (h : Heap) (xs : Cells) (c : Ptr × Node) (w : World) (r : Ptr × Heap) (w' : World)
    → Inserted h xs c w r w'
    → Refines h xs (done (node_insert (nodes_of xs) c.1) w) r w'
of_Inserted h xs c w r w' (still, chain, outside) = (
  insert xs c,
  chain,
  rw (nodes_of-insert xs c, still) refl,
  λ b i j. outside b (ground (arith, has-insert b xs c)),
)

module _ (env : Env) where
  -- The address that malloc answers is NULL or unused.
  abbrev pub IsFresh : Heap → World → Type 0
  IsFresh h w = (a : ℕ) × (env.answer w.log (malloc sizeof_node) ≡ pos a) × (h a ≡ none)

  module _ {h : Heap} {p : Ptr} {xs : Cells} (id : ℕ) (priority : ℤ) (w : World) where
    -- Where p heads a chain of fewer nodes than the fuel, and malloc gives NULL or an address that
    -- is not in use: `add` returns, in the world that `node_add` returns in for the nodes of the
    -- chain, its result heads a chain of just the nodes that `node_add` gives, and no address outside
    -- of both chains changes.
    pub add-node_add :
        (k : ℕ)
        → Chain h p xs
        → length xs < k
        → IsFresh h w
        → Returns
            (Refines h xs (node_add env (nodes_of xs) id priority w))
            (add env k p id priority h w)
    unfolding node_add add
    add-node_add k s fuel (a, ask, unused) =
        bind (find-node_search k id w s fuel) λ (q, g) w' (same, keep, (ys, t, e)).
          let is : (q == null) ≡ is_null (node_search (nodes_of xs) id) =
            null-Chain t ∙ ap is_null e in
          rw (is, same, keep)
            (elim (Bool-cases (is_null (node_search (nodes_of xs) id))) [
              | inl new ↦
                  rw new (elim (Bool-cases (is_zero (env.answer w.log (malloc sizeof_node)))) [
                    | inl full ↦ rw full (returns ([], nil, refl, λ b i j. refl))
                    | inr allocated ↦
                        rw (allocated, ask)
                          (weaken
                            (fill_and_link-Inserted {h = h} a
                              (record { nodeid = id; priority = priority })
                              (ground (arith, ask, allocated)) unused _ k s fuel)
                            (of_Inserted h xs (a, record { nodeid = id; priority = priority }) _))
                  ])
              | inr known ↦ rw known (returns (xs, s, refl, λ b i j. refl))
            ])
