-- ===== src/Input.antt =====
-- fsm_input.c: what happens outside, turned into events of the state machine.
pub mod Safety
pub mod History
pub mod Views
use freeswitch_mod_cpg.Base.{
  ℕ, ltb_ℤ, eqb_ℤ, Bool, true, false, not, ◌&&◌, ◌||◌, List, ◌==◌, snprintf, if◌then◌else◌,
}
use freeswitch_mod_cpg.Types.{
  Event, startup, duplicate, master_down, master_up, backup_down, backup_up, rback_req, stop,
  max_events, State, start, master, rback, state_code, VirtualIp, Node, NodeMsg,
}
use freeswitch_mod_cpg.World.{Env, M, Status, status_false, ◌>>=◌, ◌>>◌, pure, gets, modify}
use freeswitch_mod_cpg.Node.{is_null, list_entries, node_add, node_remove}
use freeswitch_mod_cpg.Fsm.{fsm_do_transaction, fsm_get_state}

-- The `switch` on the own state in `fsm_input_new_state_message`; `max_events` is no event.
unfoldable pub state_event : State → VirtualIp → NodeMsg → Event
state_event start vip nm =
    if vip.member_list_entries == 1
    then master_down
    else if list_entries vip.node_list == vip.member_list_entries
    then master_up
    else max_events
state_event master vip nm =
    if not (is_null vip.node_list)
      && (vip.config.autorollback && ltb_ℤ vip.config.priority nm.priority)
    then rback_req
    else max_events
state_event rback vip nm =
    if not (is_null vip.node_list)
      && (vip.config.autorollback && ltb_ℤ vip.config.priority nm.priority)
    then rback_req
    else max_events
state_event _ vip nm = max_events

-- The event that a message from a node amounts to, the duplicate test first.
unfoldable pub message_event : State → VirtualIp → NodeMsg → ℕ → Event
unfolding state_event
message_event state vip nm nodeid =
    if eqb_ℤ nm.priority vip.config.priority && not (nodeid == vip.node_id)
    then duplicate
    else state_event state vip nm

abbrev pub is_no_event : Event → Bool
is_no_event max_events = true
is_no_event _ = false

-- A sender that says it is the master, or rolling back, is recorded as the master.
abbrev pub note_master : NodeMsg → ℕ → VirtualIp → VirtualIp
note_master nm nodeid v =
    if (nm.state == state_code master) || (nm.state == state_code rback)
    then record v { master_id = nodeid; runtime_uuid = snprintf 40 nm.runtime_uuid }
    else v

abbrev pub down_event : VirtualIp → ℕ → Event
down_event v nodeid = if v.master_id == nodeid then master_down else backup_down

abbrev pub forget_rollback : ℕ → VirtualIp → VirtualIp
forget_rollback nodeid v =
    if v.rollback_node_id == nodeid then record v { rollback_node_id = 0 } else v

module _ (env : Env) where
  unfoldable pub fsm_input_node_down : ℕ → M Status
  fsm_input_node_down nodeid = do
    vip ← gets (λ v. v)
    let new_event = down_event vip nodeid
    node_list ← node_remove env vip.node_list nodeid
    modify (λ v. record v { node_list = node_list })
    modify (forget_rollback nodeid)
    fsm_do_transaction env new_event

  unfoldable pub fsm_input_node_up : M Status
  fsm_input_node_up = fsm_do_transaction env backup_up

  unfoldable pub fsm_input_new_state_message : NodeMsg → ℕ → M Status
  unfolding message_event fsm_get_state
  fsm_input_new_state_message nm nodeid = do
    list ← gets (λ v. v.node_list)
    node_list ← node_add env list nodeid nm.priority
    modify (λ v. record v { node_list = node_list })
    modify (note_master nm nodeid)
    vip ← gets (λ v. v)
    state ← fsm_get_state env
    let new_event = message_event state vip nm nodeid
    if is_no_event new_event then pure status_false else fsm_do_transaction env new_event

  unfoldable pub fsm_input_cmd_start : M Status
  fsm_input_cmd_start = fsm_do_transaction env startup

  unfoldable pub fsm_input_cmd_stop : M Status
  fsm_input_cmd_stop = fsm_do_transaction env stop
