-- ===== src/Links/Chain.antt =====
-- Nodes of node.c linked into a list, and what a write leaves of them.
use freeswitch_mod_cpg.Base.{
  ◌≡◌, ◌≢◌, refl, Bool, true, false, ◌||◌, Option, none, some, List, [], ◌∷◌, arith, ◌==◌,
}
use freeswitch_mod_cpg.Types.{Node}
use freeswitch_mod_cpg.World.{World, Outcome, done}
use freeswitch_mod_cpg.Node.{is_null}
use freeswitch_mod_cpg.Links.{Ptr, null, Cell, cell, Heap, write, load, set_next}

-- `p` holds the node `n` with the successor `q`.
pub record Holds (h : Heap) (p : Ptr) (n : Node) (q : Ptr) : Type 0 where
  pub ne_null : p ≢ null
  pub at : h p ≡ some (cell n q)

-- What a list stands for: the address and the node of each cell, in order.
abbrev pub Cells : Type 0
Cells = List (Ptr × Node)

abbrev pub nodes_of : Cells → List Node
nodes_of [] = []
nodes_of (c ∷ xs) = c.1 ∷ nodes_of xs

abbrev pub has : Ptr → Cells → Bool
has a [] = false
has a (c ∷ xs) = (a == c.0) || has a xs

infix 40 ◌∉◌
abbrev pub ◌∉◌ : Ptr → Cells → Type 0
a ∉ xs = has a xs ≡ false

-- `g` differs from `h` at most at the addresses of `xs`.
abbrev pub SameOutside : Cells → Heap → Heap → Type 0
SameOutside xs h g = (a : Ptr) → a ∉ xs → g a ≡ h a

-- From `p` the links lead through the distinct cells `xs` to NULL.
pub data Chain (h : Heap) : Ptr → Cells → Type 0 where
  nil : Chain h null []
  cons :
      {p q : Ptr} {n : Node} {xs : Cells}
      → Holds h p n q
      → p ∉ xs
      → Chain h q xs
      → Chain h p ((p, n) ∷ xs)

module _ {h : Heap} {p q : Ptr} {n : Node} (e : Holds h p n q) where
  pub not_null : (p == null) ≡ false
  not_null = ground (arith, e.ne_null)

  pub load-Holds : (w : World) → load p h w ≡ done (cell n q, h) w
  unfolding load
  load-Holds w = rw (not_null, e.at) refl

  pub set_next-Holds :
      (r : Ptr) (w : World) → set_next p r h w ≡ done (tt, write h p (some (cell n r))) w
  unfolding set_next
  set_next-Holds r w = rw (load-Holds w) refl

pub null-Chain :
    {h : Heap} {p : Ptr} {xs : Cells} → Chain h p xs → (p == null) ≡ is_null (nodes_of xs)
null-Chain nil = refl
null-Chain (cons e out s) = not_null e

-- A chain survives any change that spares its own addresses.
pub frame :
    {h g : Heap} {p : Ptr} {xs : Cells}
    → Chain h p xs
    → ((a : Ptr) → has a xs ≡ true → g a ≡ h a)
    → Chain g p xs
frame nil same = nil
frame (cons {p} e out s) same =
    cons (record { ne_null = e.ne_null; at = ground (arith, e.at, same p) }) out
      (frame s λ a i. same a (ground arith))

pub frame-write :
    {h : Heap} {p : Ptr} {xs : Cells} (a : Ptr) (c : Option Cell)
    → Chain h p xs
    → a ∉ xs
    → Chain (write h a c) p xs
unfolding write
frame-write a c s out = frame s (ground arith)

pub not_in-unused : {h : Heap} {p : Ptr} {xs : Cells} (a : Ptr) → Chain h p xs → h a ≡ none → a ∉ xs
not_in-unused a nil unused = refl
not_in-unused a (cons e out s) unused = ground (arith, e.at, not_in-unused a s unused)

-- What the run on links gives stands for what the run on the list gives, in the same world, and
-- no other node has changed.
abbrev pub Refines : Heap → Cells → Outcome (List Node) → Ptr × Heap → World → Type 0
Refines h xs r (q, g) w =
    (ys : Cells) × Chain g q ys
    × (r ≡ done (nodes_of ys) w)
    × ((a : Ptr) → a ∉ xs → a ∉ ys → g a ≡ h a)
