-- ===== src/Node.antt =====
-- node.c: the list of the nodes of a process group, highest priority first. A `node_t *` is the
-- list that it heads, NULL the empty one. `free (cur)` is the call `free_node` on the node's id.
pub mod Order
pub mod Contents
pub mod Memory
pub mod Election
pub mod Announcements
use freeswitch_mod_cpg.Base.{
  ℕ, suc, ℤ, ltb_ℤ, is_zero, Bool, true, false, Option, none, some, List, [], ◌∷◌, ◌==◌,
  if◌then◌else◌,
}
use freeswitch_mod_cpg.Types.{Node}
use freeswitch_mod_cpg.World.{
  Env, M, Status, success, malloc, free_node, ◌>>=◌, ◌>>◌, pure, ask, tell,
}

-- The node with this id heads the result; NULL if there is none.
unfoldable pub node_search : List Node → ℕ → List Node
node_search [] nodeid = []
node_search (n ∷ rest) nodeid = if n.nodeid == nodeid then n ∷ rest else node_search rest nodeid

abbrev pub is_null : List Node → Bool
is_null [] = true
is_null (n ∷ rest) = false

-- The walk of `node_add` past the nodes of higher priority, and the link of the new one.
unfoldable pub node_insert : List Node → Node → List Node
node_insert [] new_node = new_node ∷ []
node_insert (curr ∷ rest) new_node =
    if ltb_ℤ new_node.priority curr.priority
    then curr ∷ node_insert rest new_node
    else new_node ∷ curr ∷ rest

abbrev pub sizeof_node : ℕ
sizeof_node = 16

-- The walk of `node_remove`: the list without the first node with this id, and whether it is
-- there.
unfoldable pub node_unlink : List Node → ℕ → List Node
node_unlink [] nodeid = []
node_unlink (cur ∷ rest) nodeid =
    if cur.nodeid == nodeid then rest else cur ∷ node_unlink rest nodeid

-- 0, which is no node id, stands for the empty list.
unfoldable pub node_first : List Node → ℕ
node_first [] = 0
node_first (n ∷ rest) = n.nodeid

unfoldable pub list_entries : List Node → ℕ
list_entries [] = 0
list_entries (n ∷ rest) = suc (list_entries rest)

module _ (env : Env) where
  unfoldable pub node_add : List Node → ℕ → ℤ → M (List Node)
  unfolding node_search
  node_add oldlist nodeid priority =
      if is_null (node_search oldlist nodeid)
      then (do
        new_node ← ask env (malloc sizeof_node)
        if is_zero new_node
            then pure []
            else pure (node_insert oldlist (record { nodeid = nodeid; priority = priority })))
      else pure oldlist

  unfoldable pub node_remove : List Node → ℕ → M (List Node)
  unfolding node_search
  node_remove oldlist nodeid =
      if is_null (node_search oldlist nodeid)
      then pure oldlist
      else do tell env (free_node nodeid); pure (node_unlink oldlist nodeid)

  abbrev free_prev : Option ℕ → M (Unit {0})
  free_prev none = pure tt
  free_prev (some prev) = tell env (free_node prev)

  -- The loop over `current`, with the node before it.
  unfoldable pub remove_all_loop : Option ℕ → List Node → M Status
  remove_all_loop prev [] = pure success
  remove_all_loop prev (current ∷ rest) = do
    free_prev prev
    remove_all_loop (some current.nodeid) rest

  unfoldable pub node_remove_all : List Node → M Status
  unfolding remove_all_loop
  node_remove_all list = remove_all_loop none list
