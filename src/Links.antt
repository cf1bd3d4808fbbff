-- ===== src/Links.antt =====
-- node.c with its pointers: nodes at addresses, linked by `next`. Node has the same functions on the
-- list that a pointer heads. A loop runs on fuel and hangs without it; a NULL or freed node that is
-- read or written is a fault.
pub mod Chain
pub mod Find
pub mod Insert
pub mod Add
pub mod Remove
pub mod Clear
use freeswitch_mod_cpg.Base.{
  ℕ, zero, suc, ℤ, pos, ltb_ℤ, is_zero, Bool, true, false, not, Option, none, some, ◌==◌,
  if◌then◌else◌,
}
use freeswitch_mod_cpg.Types.{Node}
use freeswitch_mod_cpg.World.{
  Env, M, Outcome, Status, Call, success, malloc, free_node, done, fault, hang, and_then,
}
use freeswitch_mod_cpg.World
use freeswitch_mod_cpg.Node.{sizeof_node}

abbrev pub Ptr : Type 0
Ptr = ℕ

abbrev pub null : Ptr
null = 0

-- `node_t`: a node and the pointer to the next one.
pub record Cell : Type 0 where
  pub nodeid : ℕ
  pub priority : ℤ
  pub next : Ptr

abbrev pub cell : Node → Ptr → Cell
cell n q = record { nodeid = n.nodeid; priority = n.priority; next = q }

abbrev pub Heap : Type 0
Heap = Ptr → Option Cell

unfoldable pub write : Heap → Ptr → Option Cell → Heap
write h p c a = if a == p then c else h a

-- Commands that read and write nodes beside the world.
abbrev pub Cmd : Type 0 → Type 0
Cmd A = Heap → M (A × Heap)

abbrev pub pure : {A : Type 0} → A → Cmd A
pure a h w = done (a, h) w

infixl 5 ◌>>=◌ ◌>>◌
abbrev pub ◌>>=◌ : {A B : Type 0} → Cmd A → (A → Cmd B) → Cmd B
◌>>=◌ m k h w = and_then (m h w) (λ r. k r.0 r.1)

abbrev pub ◌>>◌ : {A B : Type 0} → Cmd A → Cmd B → Cmd B
◌>>◌ m n h w = and_then (m h w) (λ r. n r.1)

abbrev pub out_of_fuel : {A : Type 0} → Cmd A
out_of_fuel h w = hang

abbrev pub outside : {A : Type 0} → M A → Cmd A
outside m h w = and_then (m w) (λ a. done (a, h))

-- `*p`.
abbrev found : Option Cell → Cmd Cell
found none h w = fault
found (some n) h w = done (n, h) w

unfoldable pub load : Ptr → Cmd Cell
load p h = if p == null then (λ w. fault) else found (h p) h

abbrev pub store : Ptr → Option Cell → Cmd (Unit {0})
store p c h w = done (tt, write h p c) w

-- `p->next = q`.
unfoldable pub set_next : Ptr → Ptr → Cmd (Unit {0})
set_next p q = do n ← load p; store p (some (record n { next = q }))

-- The pointer that `malloc` answers.
abbrev pub pointer : ℤ → Ptr
pointer (pos p) = p
pointer _ = null

abbrev pub blank_cell : Cell
blank_cell = record { nodeid = 0; priority = pos 0; next = null }

unfoldable pub find : ℕ → Ptr → ℕ → Cmd Ptr
find zero list nodeid = out_of_fuel
find (suc k) list nodeid =
    if list == null
    then pure null
    else do n ← load list; if n.nodeid == nodeid then pure list else find k n.next nodeid

unfoldable pub first : Ptr → Cmd ℕ
first list = if list == null then pure 0 else do n ← load list; pure n.nodeid

-- The number of the nodes, with those counted before.
unfoldable pub count_loop : ℕ → Ptr → ℕ → Cmd ℕ
count_loop zero list i = out_of_fuel
count_loop (suc k) list i =
    if list == null then pure i else do n ← load list; count_loop k n.next (suc i)

-- The walk of `node_add`, which ends with `prev` and `curr`.
unfoldable pub walk : ℕ → Ptr → Ptr → ℤ → Cmd (Ptr × Ptr)
walk zero prev curr priority = out_of_fuel
walk (suc k) prev curr priority = if curr == null then pure (prev, curr) else do
  n ← load curr
  if ltb_ℤ priority n.priority then walk k curr n.next priority else pure (prev, curr)

-- The links around the new node; the result is the head of the list.
unfoldable pub link : Ptr → Ptr → Ptr × Ptr → Cmd Ptr
unfolding set_next
link oldlist new_node (prev, curr) =
    if prev == null
    then (do set_next new_node oldlist; pure new_node)
    else do set_next prev new_node; set_next new_node curr; pure oldlist

-- The fields of the new node, and the links around it.
unfoldable pub fill : Ptr → Ptr → ℕ → ℤ → Ptr × Ptr → Cmd Ptr
unfolding link
fill oldlist new_node nodeid priority place = do
  n ← load new_node
  store new_node (some (record n { nodeid = nodeid; priority = priority }))
  link oldlist new_node place

-- From the allocated node on.
abbrev pub fill_and_link : ℕ → Ptr → ℕ → ℤ → Ptr → Cmd Ptr
fill_and_link k oldlist nodeid priority new_node = do
  store new_node (some blank_cell)
  place ← walk k null oldlist priority
  fill oldlist new_node nodeid priority place

-- The loop of `node_remove`, which ends with `prev` and `cur`.
unfoldable pub seek : ℕ → Ptr → Ptr → ℕ → Cmd (Ptr × Ptr)
seek zero prev cur nodeid = out_of_fuel
seek (suc k) prev cur nodeid =
    if cur == null
    then pure (prev, cur)
    else do n ← load cur; if n.nodeid == nodeid then pure (prev, cur) else seek k cur n.next nodeid

module _ (env : Env) where
  -- `free`, with the call that names the node.
  unfoldable pub free : Ptr → Cmd (Unit {0})
  unfolding load
  free p = do n ← load p; outside (World.tell env (free_node n.nodeid)); store p none

  unfoldable pub add : ℕ → Ptr → ℕ → ℤ → Cmd Ptr
  unfolding find walk fill
  add k oldlist nodeid priority = do
    there ← find k oldlist nodeid
    if not (there == null) then pure oldlist else do
      new_node ← outside (World.ask env (malloc sizeof_node))
      if is_zero new_node
          then pure null
          else fill_and_link k oldlist nodeid priority (pointer new_node)

  -- From the loop of `node_remove` on.
  unfoldable pub unlink : Ptr → Ptr × Ptr → Cmd Ptr
  unfolding free set_next
  unlink oldlist (prev, cur) =
      if cur == null
      then pure oldlist
      else if prev == null
      then (do n ← load oldlist; free cur; pure n.next)
      else do n ← load cur; set_next prev n.next; free cur; pure oldlist

  unfoldable pub remove : ℕ → Ptr → ℕ → Cmd Ptr
  unfolding seek unlink
  remove k oldlist nodeid = do place ← seek k null oldlist nodeid; unlink oldlist place

  unfoldable pub clear_loop : ℕ → Ptr → Ptr → Cmd Status
  unfolding free
  clear_loop zero prev current = out_of_fuel
  clear_loop (suc k) prev current = if current == null then pure success else do
    if prev == null then pure tt else free prev
    n ← load current
    clear_loop k current n.next

  unfoldable pub remove_all : ℕ → Ptr → Cmd Status
  unfolding clear_loop
  remove_all k list = clear_loop k null list
