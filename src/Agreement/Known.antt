-- ===== src/Agreement/Known.antt =====
-- The node list that callbacks lead to, as a map from ids to priorities.
use freeswitch_mod_cpg.Base.{
  ℤ, ◌==◌, none, some, if◌then◌else◌, ℕ, ◌≡◌, ◌≢◌, ◌∙◌, ap, refl, inl, inr, Bool-cases, List, [],
  ◌∷◌, All, arith,
}
use freeswitch_mod_cpg.Types.{Node}
use freeswitch_mod_cpg.Node.Contents.{priority_of}
use freeswitch_mod_cpg.Callbacks.Safety.{Callback, state_from, sql_from, confchg, Receivable}
use freeswitch_mod_cpg.Callbacks.Views.{view_after}
use freeswitch_mod_cpg.Node.{node_search, is_null, node_unlink}
use freeswitch_mod_cpg.Node.Order.{
  IsPriorityList, node_search-Fresh, node_insert-IsPriorityList, node_unlink-IsPriorityList,
}
use freeswitch_mod_cpg.Node.Contents.{
  priority_of-Fresh, priority_of-insert, priority_of-unlink, node_search-found,
}
use freeswitch_mod_cpg.Input.Views.{heard}
use freeswitch_mod_cpg.Callbacks.Views.{gone}
use freeswitch_mod_cpg.Agreement.{view_of, known_of, is_in, or_else}

module _ (l : List Node) (nodeid : ℕ) (p : ℤ) (nz : nodeid ≢ 0) (h : IsPriorityList l) where
  heard-IsPriorityList : IsPriorityList (heard l nodeid p)
  unfolding heard
  heard-IsPriorityList = elim (Bool-cases (is_null (node_search l nodeid))) [
    | inl absent ↦
        rw absent (node_insert-IsPriorityList l _ (node_search-Fresh l nodeid absent) nz h)
    | inr present ↦ rw present h
  ]

  pub priority_of-heard :
      (id : ℕ)
      → priority_of (heard l nodeid p) id
        ≡ (if nodeid == id then or_else (priority_of l id) (some p) else priority_of l id)
  unfolding heard
  priority_of-heard id = elim (Bool-cases (is_null (node_search l nodeid))) [
    | inl absent ↦
        let f = node_search-Fresh l nodeid absent in
        let unknown = priority_of-Fresh l nodeid f in
        rw (absent, priority_of-insert l (record { nodeid = nodeid; priority = p }) id f)
          (ground (arith, unknown))
    | inr present ↦ rw present (ground (arith, node_search-found l nodeid))
  ]

gone-IsPriorityList :
    (l : List Node) (left_list : List ℕ) → IsPriorityList l → IsPriorityList (gone l left_list)
unfolding gone
gone-IsPriorityList l [] h = h
gone-IsPriorityList l (nodeid ∷ left_list) h =
    gone-IsPriorityList (node_unlink l nodeid) left_list (node_unlink-IsPriorityList l nodeid h)

priority_of-gone :
    (l : List Node) (left_list : List ℕ) (id : ℕ)
    → IsPriorityList l
    → priority_of (gone l left_list) id ≡ (if is_in id left_list then none else priority_of l id)
unfolding gone
priority_of-gone l [] id h = refl
priority_of-gone l (nodeid ∷ left_list) id h =
    priority_of-gone (node_unlink l nodeid) left_list id (node_unlink-IsPriorityList l nodeid h)
    ∙ ground (arith, priority_of-unlink l nodeid id h)

pub view_of-known_of :
    (history : List Callback) (l : List Node) (id : ℕ)
    → All Receivable history
    → IsPriorityList l
    → priority_of (view_of l history) id ≡ known_of id (priority_of l id) history
unfolding view_of view_after known_of
view_of-known_of [] l id hs h = refl
view_of-known_of (state_from nm nodeid ∷ history) l id ((f, nz), hs) h =
    view_of-known_of history (heard l nodeid nm.priority) id hs
      (heard-IsPriorityList l nodeid nm.priority nz h)
    ∙ ap (λ k. known_of id k history) (priority_of-heard l nodeid nm.priority nz h id)
view_of-known_of (sql_from beyond name text nodeid ∷ history) l id (r, hs) h =
    view_of-known_of history l id hs h
view_of-known_of (confchg members left_list joined ∷ history) l id (r, hs) h =
    view_of-known_of history (gone l left_list) id hs (gone-IsPriorityList l left_list h)
    ∙ ap (λ k. known_of id k history) (priority_of-gone l left_list id h)
