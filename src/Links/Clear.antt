-- ===== src/Links/Clear.antt =====
-- `node_remove_all` of node.c on linked nodes.
use freeswitch_mod_cpg.Base.{
  ℕ, zero, suc, ◌<◌, ◌≡◌, refl, none, some, [], ◌∷◌, length, arith, if◌then◌else◌,
}
use freeswitch_mod_cpg.Types.{Node}
use freeswitch_mod_cpg.World.{Env, World, done}
use freeswitch_mod_cpg.World.Returns.{Returns, returns, weaken}
use freeswitch_mod_cpg.Node.{remove_all_loop, node_remove_all}
use freeswitch_mod_cpg.Links.{Ptr, Heap, write, clear_loop, remove_all}
use freeswitch_mod_cpg.Links.Chain.{
  Holds, Cells, nodes_of, has, ◌∉◌, Chain, nil, cons, not_null, load-Holds, frame-write,
}
use freeswitch_mod_cpg.Links.Remove.{told, free-Holds}

abbrev pub but_last : Cells → Cells
but_last [] = []
but_last (x ∷ []) = []
but_last (x ∷ y ∷ xs) = x ∷ but_last (y ∷ xs)

-- The cells but the last are freed, and nothing else changes.
abbrev pub Cleared : Heap → Cells → Heap → Type 0
Cleared h xs g = (a : Ptr) → g a ≡ (if has a (but_last xs) then none else h a)

module _ (env : Env) where
  clear_loop-Cleared :
      (k : ℕ) {h : Heap} {p q : Ptr} {n : Node} (xs : Cells) (w : World)
      → Holds h p n q
      → p ∉ xs
      → Chain h q xs
      → length xs < k
      → Returns
          (λ (st, g) w'.
            (remove_all_loop env (some n.nodeid) (nodes_of xs) w ≡ done st w')
            × Cleared h ((p, n) ∷ xs) g)
          (clear_loop env k p q h w)
  unfolding clear_loop remove_all_loop write
  clear_loop-Cleared zero xs w e out s fuel = absurd (omega arith)
  clear_loop-Cleared (suc k) xs w e out nil fuel = returns (refl, λ b. refl)
  clear_loop-Cleared (suc k) {h} {p} {n} rest w e out (cons {p = q} {q = r} {n = m} {xs} e' out' s)
        fuel =
      let f : Holds (write h p none) q m r = record {
        ne_null = e'.ne_null;
        at = ground (arith, e'.at);
      } in
      let w1 = told env n.nodeid w in
      rw (not_null e', not_null e, free-Holds env w e, load-Holds f w1)
        (weaken
          (clear_loop-Cleared k xs w1 f out' (frame-write p none s (ground arith)) (omega arith))
          λ a w' (same, cleared). (same, λ b. ground (arith, cleared b)))

  -- Where p heads a chain of fewer nodes than the fuel: `remove_all` returns, with the status and
  -- the world that `node_remove_all` returns with for the nodes of the chain, the addresses of the
  -- chain but the last hold nothing, and no other address changes.
  pub remove_all-node_remove_all :
      (k : ℕ) {h : Heap} {p : Ptr} {xs : Cells} (w : World)
      → Chain h p xs
      → length xs < k
      → Returns
          (λ (st, g) w'. (node_remove_all env (nodes_of xs) w ≡ done st w') × Cleared h xs g)
          (remove_all env k p h w)
  unfolding remove_all clear_loop node_remove_all remove_all_loop
  remove_all-node_remove_all zero w s fuel = absurd (omega arith)
  remove_all-node_remove_all (suc k) w nil fuel = returns (refl, λ b. refl)
  remove_all-node_remove_all (suc k) w (cons {xs} e out s) fuel =
      rw (not_null e, load-Holds e w) (clear_loop-Cleared k xs w e out s (omega arith))
