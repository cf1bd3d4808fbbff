-- ===== src/Tests/Links.antt =====
-- The theorems on linked nodes, at two nodes in memory.
use freeswitch_mod_cpg.Base.{none, some, ◌≡◌, refl, pos, [], ◌∷◌, arith}
use freeswitch_mod_cpg.World.{done}
use freeswitch_mod_cpg.World.Returns.{Returns}
use freeswitch_mod_cpg.Node.{node_add, node_remove, node_remove_all}
use freeswitch_mod_cpg.Links.{cell, Heap, write, add, remove, remove_all}
use freeswitch_mod_cpg.Links.Chain.{Cells, nodes_of, SameOutside, Chain, nil, cons, Refines}
use freeswitch_mod_cpg.Links.Add.{add-node_add}
use freeswitch_mod_cpg.Links.Remove.{Freed, remove-node_remove}
use freeswitch_mod_cpg.Links.Clear.{Cleared, remove_all-node_remove_all}
use freeswitch_mod_cpg.Tests.{calm, node, waiting}

abbrev memory : Heap
memory = write (write (λ a. none) 20 (some (cell (node 2 50) 0))) 10 (some (cell (node 1 100) 20))

abbrev cells : Cells
cells = (10, node 1 100) ∷ (20, node 2 50) ∷ []

memory-Chain : Chain memory 10 cells
unfolding write
memory-Chain =
    cons {q = 20} (record { ne_null = ground arith; at = refl }) refl
      (cons (record { ne_null = ground arith; at = refl }) refl nil)

-- Between the two nodes.
add-node_add_example :
    Returns
      (Refines memory cells (node_add calm (nodes_of cells) 3 (pos 70) waiting))
      (add calm 3 10 3 (pos 70) memory waiting)
unfolding write
add-node_add_example =
    add-node_add calm 3 (pos 70) waiting 3 memory-Chain (omega arith) (1, refl, refl)

remove-node_remove_example :
    Returns
      (λ (q, g) w'.
        (ys : Cells) × Chain g q ys
        × (node_remove calm (nodes_of cells) 2 waiting ≡ done (nodes_of ys) w')
        × SameOutside cells memory g
        × Freed g cells ys)
      (remove calm 3 10 2 memory waiting)
remove-node_remove_example = remove-node_remove calm 2 waiting 3 memory-Chain (omega arith)

remove_all-node_remove_all_example :
    Returns
      (λ (st, g) w'.
        (node_remove_all calm (nodes_of cells) waiting ≡ done st w') × Cleared memory cells g)
      (remove_all calm 3 10 memory waiting)
remove_all-node_remove_all_example =
    remove_all-node_remove_all calm 3 waiting memory-Chain (omega arith)
