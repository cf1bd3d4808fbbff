-- ===== src/Links/Find.antt =====
-- `node_search`, `node_first` and `list_entries` of node.c on linked nodes.
use freeswitch_mod_cpg.Base.{
  ℕ, zero, suc, ◌+◌, ◌<◌, ◌≡◌, ◌∙◌, ap, refl, inl, inr, Bool-cases, [], ◌∷◌, length, arith, ◌==◌,
}
use freeswitch_mod_cpg.World.{World, done}
use freeswitch_mod_cpg.World.Returns.{Returns, returns}
use freeswitch_mod_cpg.Node.{node_search, node_first, list_entries}
use freeswitch_mod_cpg.Links.{Ptr, Heap, find, first, count_loop}
use freeswitch_mod_cpg.Links.Chain.{Cells, nodes_of, Chain, nil, cons, not_null, load-Holds}

-- The pointer that comes back heads the rest of the list that `node_search` gives.
pub find-node_search :
    (k : ℕ) {h : Heap} {p : Ptr} {xs : Cells} (id : ℕ) (w : World)
    → Chain h p xs
    → length xs < k
    → Returns
        (λ (q, g) w'.
          (w' ≡ w)
          × (g ≡ h)
          × ((ys : Cells) × Chain h q ys × (nodes_of ys ≡ node_search (nodes_of xs) id)))
        (find k p id h w)
unfolding find node_search
find-node_search zero id w s fuel = absurd (omega arith)
find-node_search (suc k) id w nil fuel = returns (refl, refl, ([], nil, refl))
find-node_search (suc k) id w (cons {p} {n} {xs} e out s) fuel =
    rw (not_null e, load-Holds e w)
      (elim (Bool-cases (n.nodeid == id)) [
        | inl hit ↦ rw hit (returns (refl, refl, ((p, n) ∷ xs, cons e out s, refl)))
        | inr miss ↦ rw miss (find-node_search k id w s (omega arith))
      ])

pub first-node_first :
    {h : Heap} {p : Ptr} {xs : Cells} (w : World)
    → Chain h p xs
    → first p h w ≡ done (node_first (nodes_of xs), h) w
unfolding first node_first
first-node_first w nil = refl
first-node_first w (cons e out s) = rw (not_null e, load-Holds e w) refl

pub count_loop-list_entries :
    (k : ℕ) {h : Heap} {p : Ptr} {xs : Cells} (i : ℕ) (w : World)
    → Chain h p xs
    → length xs < k
    → count_loop k p i h w ≡ done (i + list_entries (nodes_of xs), h) w
unfolding count_loop list_entries
count_loop-list_entries zero i w s fuel = absurd (omega arith)
count_loop-list_entries (suc k) {h} i w nil fuel = ap (λ j. done (j, h) w) (omega arith)
count_loop-list_entries (suc k) {h} i w (cons {xs} e out s) fuel =
    rw (not_null e, load-Holds e w)
      (count_loop-list_entries k (suc i) w s (omega arith) ∙ ap (λ j. done (j, h) w) (omega arith))
