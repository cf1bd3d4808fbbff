-- ===== src/Input/Views.antt =====
-- What the inputs of fsm_input.c that the group causes make of the list of nodes.
use freeswitch_mod_cpg.Utils.Ip.Bound.{target}
use freeswitch_mod_cpg.Base.{
  true, ℕ, ℤ, ◌≡◌, ◌≢◌, ◌⊎◌, ◌∙◌, refl, ap, inl, inr, List, [], ◌∷◌, Bytes, Bool-cases, arith,
  if◌then◌else◌,
}
use freeswitch_mod_cpg.Types.{
  Event, startup, rback_req, State, idle, start, backup, master, rback, max_states, VirtualIp, Node,
  NodeMsg,
}
use freeswitch_mod_cpg.World.{Env, World}
use freeswitch_mod_cpg.World.Returns.{Returns, returns, bind, weaken, of_Ensures, both}
use freeswitch_mod_cpg.Node.{is_null, node_search, node_insert, node_unlink, node_add, node_remove}
use freeswitch_mod_cpg.Node.Memory.{node_add-Added, node_remove-priority_of}
use freeswitch_mod_cpg.Node.Announcements.{HasMemory}
use freeswitch_mod_cpg.Utils.Garp.{Addresses}
use freeswitch_mod_cpg.VirtualIp.Delivery.{Responsive}
use freeswitch_mod_cpg.Fsm.{fsm_do_transaction}
use freeswitch_mod_cpg.Fsm.Transitions.{In, successors, IsSafe, fsm_do_transaction-Transits}
use freeswitch_mod_cpg.Input.{
  message_event, is_no_event, note_master, down_event, forget_rollback, fsm_input_node_down,
  fsm_input_new_state_message, fsm_input_node_up,
}
use freeswitch_mod_cpg.Input.Safety.{
  IsSound, IsSafe-relisted, note_master-keeps, forget_rollback-keeps, message_event-nodes,
  down_event-ne, node_add-bound, node_remove-bound,
}

-- The nodes that are known after a message from a node.
unfoldable pub heard : List Node → ℕ → ℤ → List Node
heard l id p =
    if is_null (node_search l id) then node_insert l (record { nodeid = id; priority = p }) else l

-- A run from `w` ends in the state IDLE, or it started in another state, ends with the nodes `l`
-- and keeps the node's id.
abbrev pub Views : List Node → World → World → Type 0
Views l w w' =
    (w'.vip.state ≡ idle)
    ⊎ ((w.vip.state ≢ idle) × (w'.vip.node_list ≡ l) × (w'.vip.node_id ≡ w.vip.node_id))

idle_or : (s : State) → (s ≡ idle) ⊎ (s ≢ idle)
idle_or idle = inl refl
idle_or start = inr (λ e. cc)
idle_or backup = inr (λ e. cc)
idle_or master = inr (λ e. cc)
idle_or rback = inr (λ e. cc)
idle_or max_states = inr (λ e. cc)

-- Nothing that `Views` reads changes.
pub Views-unmoved :
    (w w' : World)
    → w'.vip.state ≡ w.vip.state
    → w'.vip.node_list ≡ w.vip.node_list
    → w'.vip.node_id ≡ w.vip.node_id
    → Views w.vip.node_list w w'
Views-unmoved w w' s l n = elim (idle_or w.vip.state) [
  | inl down ↦ inl (s ∙ down)
  | inr up ↦ inr (up, l, n)
]

-- One run after another.
pub Views-then :
    (l : List Node) (w w1 w2 : World)
    → w1.vip.node_list ≡ l
    → (w1.vip.state ≡ w.vip.state)
    → (w1.vip.node_id ≡ w.vip.node_id)
    → Views w1.vip.node_list w1 w2
    → Views l w w2
Views-then l w w1 w2 e s n v = ground arith

idle_stays :
    (s : State) (e : Event) (t : State) → In t (successors s e) → e ≢ startup → s ≡ idle → t ≡ idle
unfolding successors
idle_stays s e t i ne h = ground arith

message_event-ne :
    (s : State) (v : VirtualIp) (nm : NodeMsg) (nodeid : ℕ) → message_event s v nm nodeid ≢ startup
unfolding message_event
message_event-ne s v nm nodeid = ground arith

down_event-ne-startup : (v : VirtualIp) (nodeid : ℕ) → down_event v nodeid ≢ startup
down_event-ne-startup v nodeid = ground arith

pub unlink-missing :
    (l : List Node) (id : ℕ) → is_null (node_search l id) ≡ true → node_unlink l id ≡ l
unfolding node_search node_unlink
unlink-missing [] id m = refl
unlink-missing (n ∷ rest) id m = ground (arith, unlink-missing rest id)

pub forget_rollback-node_id :
    (nodeid : ℕ) (v : VirtualIp) → (forget_rollback nodeid v).node_id ≡ v.node_id
forget_rollback-node_id nodeid v = ground arith

pub note_master-node_id :
    (nm : NodeMsg) (nodeid : ℕ) (v : VirtualIp) → (note_master nm nodeid v).node_id ≡ v.node_id
note_master-node_id nm nodeid v = ground arith

module _ (env : Env) where
  pub node_add-heard :
      (l : List Node) (id : ℕ) (p : ℤ) (w : World)
      → HasMemory env
      → Returns (λ l' w'. (l' ≡ heard l id p) × (w'.vip ≡ w.vip)) (node_add env l id p w)
  unfolding node_add heard
  node_add-heard l id p w room =
      of_Ensures (λ l' w'. (l' ≡ heard l id p) × (w'.vip ≡ w.vip)) _ (ground (arith, room w.log))

  pub node_remove-unlinked :
      (l : List Node) (id : ℕ) (w : World)
      → Returns (λ l' w'. (l' ≡ node_unlink l id) × (w'.vip ≡ w.vip)) (node_remove env l id w)
  unfolding node_remove
  node_remove-unlinked l id w =
      of_Ensures (λ l' w'. (l' ≡ node_unlink l id) × (w'.vip ≡ w.vip)) _
        (ground (arith, unlink-missing l id))

module _ (env : Env) (w : World) (ether ip : Bytes) (responsive : Responsive env)
    (a : Addresses env w.vip.config.mac w.vip.config.address ether ip) (sound : IsSound w) where
  transaction-Views :
      (w1 : World) (e : Event)
      → IsSafe w1
      → w1.vip.config ≡ w.vip.config
      → (e ≡ rback_req → w1.vip.node_list ≢ [])
      → e ≢ startup
      → Returns (λ s w'. Views w1.vip.node_list w1 w') (fsm_do_transaction env e w1)
  transaction-Views w1 e safe c n ne =
      weaken (fsm_do_transaction-Transits env w1 ether ip responsive (rw c a) safe e n) (λ s w' t.
        elim (idle_or w1.vip.state) [
          | inl down ↦ inl (idle_stays w1.vip.state e w'.vip.state t.target ne down)
          | inr up ↦ elim t.nodes [ inl same ↦ inr (up, same.0, same.1) | inr gone ↦ inl gone.1 ]
        ])

  pub fsm_input_node_up-Views :
      Returns (λ s w'. Views w.vip.node_list w w') (fsm_input_node_up env w)
  unfolding fsm_input_node_up
  fsm_input_node_up-Views = transaction-Views w _ sound.safe refl (λ e. cc) (λ e. cc)

  pub fsm_input_node_down-Views :
      (nodeid : ℕ)
      → Returns
          (λ s w'. Views (node_unlink w.vip.node_list nodeid) w w')
          (fsm_input_node_down env nodeid w)
  unfolding fsm_input_node_down
  fsm_input_node_down-Views nodeid =
      bind
        (both _ _ _ (node_remove-unlinked env w.vip.node_list nodeid w) (
          both _ _ _ (node_remove-priority_of env w.vip.node_list nodeid w sound.order)
            (node_remove-bound env (target w.vip.config) w.vip.node_list nodeid w)))
        λ l w1 k.
          let v = record (w1.vip) { node_list = l } in
          let same = forget_rollback-keeps nodeid v in
          weaken
            (transaction-Views (record w1 { vip = forget_rollback nodeid v })
              (down_event w.vip nodeid)
              (IsSafe-relisted w w1 (forget_rollback nodeid v) sound.safe k.1.0.0.0 k.1.0.0.1 k.1.1
                same.0 same.1)
              (same.0 ∙ ap (λ (q : VirtualIp). q.config) k.0.1)
              (λ h. absurd (down_event-ne w.vip nodeid h)) (down_event-ne-startup w.vip nodeid))
            (λ s w' t.
              Views-then (node_unlink w.vip.node_list nodeid) w
                (record w1 { vip = forget_rollback nodeid v }) w' (same.2 ∙ k.0.0)
                (same.1 ∙ ap (λ (q : VirtualIp). q.state) k.0.1)
                (forget_rollback-node_id nodeid v ∙ ap (λ (q : VirtualIp). q.node_id) k.0.1) t)

  pub fsm_input_new_state_message-Views :
      (nm : NodeMsg) (nodeid : ℕ)
      → nodeid ≢ 0
      → HasMemory env
      → Returns
          (λ s w'. Views (heard w.vip.node_list nodeid nm.priority) w w')
          (fsm_input_new_state_message env nm nodeid w)
  unfolding fsm_input_new_state_message
  fsm_input_new_state_message-Views nm nodeid nz room =
      bind
        (both _ _ _ (node_add-heard env w.vip.node_list nodeid nm.priority w room) (
          both _ _ _ (node_add-Added env w.vip.node_list nodeid nm.priority w nz sound.order)
            (node_add-bound env (target w.vip.config) w.vip.node_list nodeid nm.priority w)))
        λ l w1 k.
          let v = record (w1.vip) { node_list = l } in
          let same = note_master-keeps nm nodeid v in
          let v1 = note_master nm nodeid v in
          let e = message_event v1.state v1 nm nodeid in
          let state = same.1 ∙ ap (λ (q : VirtualIp). q.state) k.0.1 in
          let node_id = note_master-node_id nm nodeid v ∙ ap (λ (q : VirtualIp). q.node_id) k.0.1 in
          let w2 = record w1 { vip = v1 } in
          elim (Bool-cases (is_no_event e)) [
            | inl nothing ↦ rw nothing (
                returns (
                  Views-then _ w w2 w2 (same.2 ∙ k.0.0) state node_id
                    (Views-unmoved w2 w2 refl refl refl)))
            | inr event ↦ rw event (
                weaken
                  (transaction-Views w2 e
                    (IsSafe-relisted w w1 v1 sound.safe k.1.0.0.0 k.1.0.0.1 k.1.1 same.0 same.1)
                    (same.0 ∙ ap (λ (q : VirtualIp). q.config) k.0.1)
                    (message_event-nodes v1.state v1 nm nodeid)
                    (message_event-ne v1.state v1 nm nodeid))
                  (λ s w' t. Views-then _ w w2 w' (same.2 ∙ k.0.0) state node_id t))
          ]
