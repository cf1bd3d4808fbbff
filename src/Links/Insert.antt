-- ===== src/Links/Insert.antt =====
-- The walk of `node_add` in node.c on linked nodes, behind a node that it has passed.
use freeswitch_mod_cpg.Base.{
  ℕ, zero, suc, ◌<◌, ltb_ℤ, ◌≡◌, refl, inl, inr, true, false, Bool-cases, ◌||◌, some, [], ◌∷◌,
  length, arith, ◌==◌, if◌then◌else◌,
}
use freeswitch_mod_cpg.Types.{Node}
use freeswitch_mod_cpg.World.{World}
use freeswitch_mod_cpg.World.Returns.{Returns, returns, weaken}
use freeswitch_mod_cpg.Node.{node_insert}
use freeswitch_mod_cpg.Links.{Ptr, cell, Heap, write, walk, link, fill, ◌>>=◌}
use freeswitch_mod_cpg.Links.Chain.{
  Holds, Cells, nodes_of, has, ◌∉◌, SameOutside, Chain, nil, cons, not_null, load-Holds,
  set_next-Holds, frame,
}

-- The cells with the new one behind those of higher priority.
unfoldable pub insert : Cells → Ptr × Node → Cells
insert [] c = c ∷ []
insert (x ∷ xs) c =
    let rest = insert xs c in if ltb_ℤ (c.1).priority (x.1).priority then x ∷ rest else c ∷ x ∷ xs

pub nodes_of-insert :
    (xs : Cells) (c : Ptr × Node) → nodes_of (insert xs c) ≡ node_insert (nodes_of xs) c.1
unfolding insert node_insert
nodes_of-insert [] c = refl
nodes_of-insert (x ∷ xs) c = ground (arith, nodes_of-insert xs c)

pub has-insert :
    (b : Ptr) (xs : Cells) (c : Ptr × Node) → has b (insert xs c) ≡ ((b == c.0) || has b xs)
unfolding insert
has-insert b [] c = refl
has-insert b (x ∷ xs) c = ground (arith, has-insert b xs c)

-- The links around the new node, behind the cell `prev`.
abbrev pub Linked :
    Heap → Ptr × Node → Ptr × Node → Cells → Ptr → World → Ptr × Heap → World → Type 0
Linked h new prev xs oldlist w (r, g) w' =
    (r ≡ oldlist)
    × (w' ≡ w)
    × Chain g prev.0 (prev ∷ insert xs new)
    × SameOutside (new ∷ prev ∷ xs) h g

module _ {h : Heap} (a : Ptr) (old new : Node) (z oldlist : Ptr) (fresh : Holds h a old z)
    (w : World) where
  -- The new node stands right behind `prev`.
  pub fill-Linked :
      {prev curr : Ptr} {n : Node} {xs : Cells}
      → Holds h prev n curr
      → prev ∉ xs
      → Chain h curr xs
      → a ∉ xs
      → (a == prev) ≡ false
      → insert xs (a, new) ≡ (a, new) ∷ xs
      → Returns
          (Linked h (a, new) (prev, n) xs oldlist w)
          (fill oldlist a new.nodeid new.priority (prev, curr) h w)
  unfolding fill link write
  fill-Linked {prev} {curr} {n} {xs} e out s apart ne first =
      let h1 = write h a (some (cell new z)) in
      let e1 : Holds h1 prev n curr = record { ne_null = e.ne_null; at = ground (arith, e.at) } in
      let h2 = write h1 prev (some (cell n a)) in
      let f2 : Holds h2 a new z = record { ne_null = fresh.ne_null; at = ground arith } in
      let g = write h2 a (some (cell new curr)) in
      let e3 : Holds g prev n a = record { ne_null = e.ne_null; at = ground arith } in
      let f3 : Holds g a new curr = record { ne_null = fresh.ne_null; at = ground arith } in
      rw (load-Holds fresh w, not_null e, set_next-Holds e1 a w, set_next-Holds f2 curr w)
        (returns (
          refl,
          refl,
          rw first (
              cons {xs = (a, new) ∷ xs} e3 (ground arith) (cons f3 apart (frame s (ground arith)))),
          ground arith,
        ))

  -- One cell more in front of those that the walk passes.
  past-Linked :
      {prev curr : Ptr} {n m : Node} (xs : Cells)
      → Holds h prev n curr
      → prev ∉ ((curr, m) ∷ xs)
      → curr ∉ xs
      → (a == prev) ≡ false
      → ltb_ℤ new.priority m.priority ≡ true
      → (r : Ptr × Heap) (w' : World) → Linked h (a, new) (curr, m) xs oldlist w r w'
      → Linked h (a, new) (prev, n) ((curr, m) ∷ xs) oldlist w r w'
  unfolding insert
  past-Linked {prev} {curr} {n} {m} xs e out out' ne lower r w' (same, still, chain, outside) =
      let apart : prev ∉ insert xs (a, new) = ground (arith, has-insert prev xs (a, new)) in
      let e' : Holds r.1 prev n curr = record {
        ne_null = e.ne_null;
        at = ground (arith, e.at, outside prev);
      } in
      (same, still, rw lower (cons e' (ground arith) chain), λ b i. outside b (ground arith))

  pub walk-Linked :
      (k : ℕ) {prev curr : Ptr} {n : Node} {xs : Cells}
      → Holds h prev n curr
      → prev ∉ xs
      → Chain h curr xs
      → a ∉ xs
      → (a == prev) ≡ false
      → length xs < k
      → Returns
          (Linked h (a, new) (prev, n) xs oldlist w)
          ((walk k prev curr new.priority >>= fill oldlist a new.nodeid new.priority) h w)
  unfolding walk insert
  walk-Linked zero e out s apart ne fuel = absurd (omega arith)
  walk-Linked (suc k) e out nil apart ne fuel = fill-Linked e out nil apart ne refl
  walk-Linked (suc k) {prev} {n} e out (cons {p = curr} {n = m} {xs} e' out' s) apart ne fuel =
      rw (not_null e', load-Holds e' w)
        (elim (Bool-cases (ltb_ℤ new.priority m.priority)) [
          | inl lower ↦ rw lower (
              weaken (walk-Linked k e' out' s (ground arith) (ground arith) (omega arith))
                (past-Linked xs e out out' ne lower))
          | inr upper ↦ rw upper (fill-Linked e out (cons e' out' s) apart ne (rw upper refl))
        ])
