-- ===== src/Input/Safety.antt =====
-- The inputs of fsm_input.c keep the invariant of a virtual ip and never run into a fault.
use freeswitch_mod_cpg.Base.{
  ℕ, ℤ, ◌≡◌, ◌≢◌, ◌⊎◌, ◌∙◌, ap, inl, inr, List, [], Bytes, Bool-cases, arith,
}
use freeswitch_mod_cpg.Types.{Event, rback_req, State, idle, VirtualIp, Node, NodeMsg}
use freeswitch_mod_cpg.World.{Env, World, Status}
use freeswitch_mod_cpg.World.Returns.{Returns, returns, bind, weaken, of_Ensures, both}
use freeswitch_mod_cpg.Node.{node_add, node_remove}
use freeswitch_mod_cpg.Node.Order.{IsPriorityList}
use freeswitch_mod_cpg.Node.Memory.{node_add-Added, node_remove-priority_of}
use freeswitch_mod_cpg.Utils.Ip.Bound.{Target, target, bound}
use freeswitch_mod_cpg.Utils.Garp.{Addresses}
use freeswitch_mod_cpg.VirtualIp.Delivery.{Responsive}
use freeswitch_mod_cpg.Fsm.{fsm_do_transaction}
use freeswitch_mod_cpg.Fsm.Transitions.{IsSafe, Transits, fsm_do_transaction-Transits}
use freeswitch_mod_cpg.Input.{
  message_event, is_no_event, note_master, down_event, forget_rollback, fsm_input_node_down,
  fsm_input_new_state_message,
}

-- The invariant between two inputs: a node that serves the address has it on its interface, the
-- rings of arpator.c are whole, and the node list is in priority order with distinct ids.
pub record IsSound (w : World) : Type 0 where
  pub safe : IsSafe w
  pub order : IsPriorityList w.vip.node_list

-- An input keeps the invariant and the configuration.
abbrev pub Sound : World → Status → World → Type 0
Sound w s w' = IsSound w' × (w'.vip.config ≡ w.vip.config)

Sound-of_Transits :
    (w0 w : World) (targets : List State) (s : Status) (w' : World)
    → w.vip.config ≡ w0.vip.config
    → IsPriorityList w.vip.node_list
    → Transits w targets s w'
    → Sound w0 s w'
Sound-of_Transits w0 w targets s w' c o t =
    (record { safe = t.safe; order = kept t.nodes }, t.config ∙ c)
  where
    kept :
        ((w'.vip.node_list ≡ w.vip.node_list) × (w'.vip.node_id ≡ w.vip.node_id))
          ⊎ ((w'.vip.node_list ≡ []) × (w'.vip.state ≡ idle))
        → IsPriorityList w'.vip.node_list
    kept (inl e) = rw e.0 o
    kept (inr e) = rw e.0 tt

-- A rollback request is made only with a node list that is not empty.
pub message_event-nodes :
    (s : State) (v : VirtualIp) (nm : NodeMsg) (nodeid : ℕ)
    → message_event s v nm nodeid ≡ rback_req
    → v.node_list ≢ []
unfolding message_event
message_event-nodes s v nm nodeid h = ground arith

pub note_master-keeps :
    (nm : NodeMsg) (nodeid : ℕ) (v : VirtualIp)
    → ((note_master nm nodeid v).config ≡ v.config)
      × ((note_master nm nodeid v).state ≡ v.state)
      × ((note_master nm nodeid v).node_list ≡ v.node_list)
note_master-keeps nm nodeid v = ground arith

pub down_event-ne : (v : VirtualIp) (nodeid : ℕ) → down_event v nodeid ≢ rback_req
down_event-ne v nodeid = ground arith

pub forget_rollback-keeps :
    (nodeid : ℕ) (v : VirtualIp)
    → ((forget_rollback nodeid v).config ≡ v.config)
      × ((forget_rollback nodeid v).state ≡ v.state)
      × ((forget_rollback nodeid v).node_list ≡ v.node_list)
forget_rollback-keeps nodeid v = ground arith

-- What an input does to the virtual ip before the transaction leaves the invariant intact.
pub IsSafe-relisted :
    (w w1 : World) (v : VirtualIp)
    → IsSafe w
    → w1.vip ≡ w.vip
    → w1.rings ≡ w.rings
    → bound (target w.vip.config) w1.log ≡ bound (target w.vip.config) w.log
    → v.config ≡ w1.vip.config
    → v.state ≡ w1.vip.state
    → IsSafe (record w1 { vip = v })
IsSafe-relisted w w1 v safe e r b c s = record {
  rings = rw r safe.rings;
  owner = λ h. ground (arith, safe.owner);
}

pub node_add-bound :
    (env : Env) (t : Target) (l : List Node) (id : ℕ) (p : ℤ) (w : World)
    → Returns (λ l' w'. bound t w'.log ≡ bound t w.log) (node_add env l id p w)
unfolding node_add bound
node_add-bound env t l id p w =
    of_Ensures (λ l' w'. bound t w'.log ≡ bound t w.log) _ (ground arith)

pub node_remove-bound :
    (env : Env) (t : Target) (l : List Node) (id : ℕ) (w : World)
    → Returns (λ l' w'. bound t w'.log ≡ bound t w.log) (node_remove env l id w)
unfolding node_remove bound
node_remove-bound env t l id w =
    of_Ensures (λ l' w'. bound t w'.log ≡ bound t w.log) _ (ground arith)

module _ (env : Env) (w : World) (ether ip : Bytes) (responsive : Responsive env)
    (a : Addresses env w.vip.config.mac w.vip.config.address ether ip) (sound : IsSound w) where
  -- A transaction in a world that differs from the first one by what an input does before it.
  pub continues :
      (w1 : World) (e : Event)
      → IsSafe w1
      → IsPriorityList w1.vip.node_list
      → w1.vip.config ≡ w.vip.config
      → (e ≡ rback_req → w1.vip.node_list ≢ [])
      → Returns (Sound w) (fsm_do_transaction env e w1)
  continues w1 e safe order c n =
      weaken (fsm_do_transaction-Transits env w1 ether ip responsive (rw c a) safe e n)
        (λ s w' t. Sound-of_Transits w w1 _ s w' c order t)

  -- `fsm_input_node_down`, on a virtual ip that satisfies the invariant, returns with the invariant
  -- and the configuration kept, whichever node is gone. That is so where libc reads the configured
  -- addresses and corosync settles every message.
  pub fsm_input_node_down-Sound :
      (nodeid : ℕ) → Returns (Sound w) (fsm_input_node_down env nodeid w)
  unfolding fsm_input_node_down
  fsm_input_node_down-Sound nodeid =
      bind
        (both _ _ _ (node_remove-priority_of env w.vip.node_list nodeid w sound.order)
          (node_remove-bound env (target w.vip.config) w.vip.node_list nodeid w))
        λ l w1 k.
          let v = record (w1.vip) { node_list = l } in
          let same = forget_rollback-keeps nodeid v in
          continues _ (down_event w.vip nodeid)
            (IsSafe-relisted w w1 (forget_rollback nodeid v) sound.safe k.0.0.0 k.0.0.1 k.1 same.0
              same.1)
            (rw same.2 k.0.1) (same.0 ∙ ap (λ (q : VirtualIp). q.config) k.0.0.0)
            (λ h. absurd (down_event-ne w.vip nodeid h))

  -- `fsm_input_new_state_message`, on a virtual ip that satisfies the invariant, returns with the
  -- invariant and the configuration kept, whatever the message says and even if there is no memory
  -- for the sender, if the sender's id is not 0. That is so where libc reads the configured
  -- addresses and corosync settles every message.
  pub fsm_input_new_state_message-Sound :
      (nm : NodeMsg) (nodeid : ℕ)
      → nodeid ≢ 0
      → Returns (Sound w) (fsm_input_new_state_message env nm nodeid w)
  unfolding fsm_input_new_state_message
  fsm_input_new_state_message-Sound nm nodeid nz =
      bind
        (both _ _ _ (node_add-Added env w.vip.node_list nodeid nm.priority w nz sound.order)
          (node_add-bound env (target w.vip.config) w.vip.node_list nodeid nm.priority w))
        λ l w1 k.
          let v = record (w1.vip) { node_list = l } in
          let same = note_master-keeps nm nodeid v in
          let v1 = note_master nm nodeid v in
          let safe = IsSafe-relisted w w1 v1 sound.safe k.0.0.0 k.0.0.1 k.1 same.0 same.1 in
          let config = same.0 ∙ ap (λ (q : VirtualIp). q.config) k.0.0.0 in
          let e = message_event v1.state v1 nm nodeid in
          elim (Bool-cases (is_no_event e)) [
            | inl nothing ↦
                rw nothing (returns (record { safe = safe; order = rw same.2 k.0.1 }, config))
            | inr event ↦ rw event (
                continues _ e safe (rw same.2 k.0.1) config
                  (message_event-nodes v1.state v1 nm nodeid))
          ]
