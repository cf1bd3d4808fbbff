-- ===== src/GroupThread/Silence/Callbacks.antt =====
-- The state machine, its inputs and the callbacks of corosync leave the membership of the group
-- thread alone.
use freeswitch_mod_cpg.Base.{
  ℕ, ℤ, eqb_ℤ, Bool, not, ◌||◌, List, [], ◌∷◌, Bytes, Option, none, some, bytes_eq, ◌==◌, refl,
}
use freeswitch_mod_cpg.Types.{
  Event, State, idle, start, backup, master, rback, max_states, startup, duplicate, master_down,
  master_up, backup_down, backup_up, rback_req, stop, max_events, VirtualIp, SofiaProfile, NodeMsg,
}
use freeswitch_mod_cpg.World.{Env, World, success, status_false, cpg_context_get}
use freeswitch_mod_cpg.World.Partial.{returned, faulted}
use freeswitch_mod_cpg.Fsm.{
  noop, error, dup_warn, nodeup, table, is_event, is_state, fsm_do_transaction, fsm_get_state,
}
use freeswitch_mod_cpg.Input.{
  fsm_input_node_down, fsm_input_node_up, fsm_input_new_state_message, down_event, forget_rollback,
  note_master, message_event, is_no_event,
}
use freeswitch_mod_cpg.GroupThread.Protocol.{protocol}
use freeswitch_mod_cpg.GroupThread.Silence.{
  Silent, then_lem, if_lem, pure-Silent, ask-Silent, modify-Silent, gets-Silent,
  virtual_ip_send_state-Silent,
}
use freeswitch_mod_cpg.GroupThread.Silence.{utils_send_track_event-Silent}
use freeswitch_mod_cpg.GroupThread.Silence.Callers.{
  node_add-Silent, node_remove-Silent, go_down-Silent, act-Silent, react-Silent, backupup-Silent,
  rollback-Silent, go_up-Silent, rback_stop-Silent, observe-Silent,
}
use freeswitch_mod_cpg.Base.{drop, ◌+◌}
use freeswitch_mod_cpg.World.{cpg_dispatch}
use freeswitch_mod_cpg.Callbacks.{
  find_context, read_word, c_str, sizeof_header, to_int, present, track_loop, deliver_sql,
  deliver_state, deliver_callback, left_loop, confchg_callback,
}
use freeswitch_mod_cpg.Callbacks.Safety.{Callback, state_from, sql_from, confchg, call_back}
use freeswitch_mod_cpg.VirtualIp.Message.{
  state_message, sql_message, msg_type_code, sql, node_state,
}
use freeswitch_mod_cpg.Types.{max_sofia_name}
use freeswitch_mod_cpg.GroupThread.Soundness.{call_all, dispatch_pending}

module _ (env : Env) where
  table-Silent : (e : Event) (s : State) → Silent env (table env e s)
  unfolding table error noop dup_warn nodeup
  table-Silent startup idle = go_up-Silent env
  table-Silent startup s = pure-Silent env status_false
  table-Silent duplicate idle = pure-Silent env status_false
  table-Silent duplicate start = go_down-Silent env
  table-Silent duplicate max_states = pure-Silent env status_false
  table-Silent duplicate s = pure-Silent env success
  table-Silent master_down start = act-Silent env
  table-Silent master_down backup = react-Silent env
  table-Silent master_down s = pure-Silent env status_false
  table-Silent master_up start = observe-Silent env
  table-Silent master_up s = pure-Silent env status_false
  table-Silent backup_down idle = pure-Silent env status_false
  table-Silent backup_down rback = rback_stop-Silent env
  table-Silent backup_down max_states = pure-Silent env status_false
  table-Silent backup_down s = pure-Silent env success
  table-Silent backup_up start = virtual_ip_send_state-Silent env
  table-Silent backup_up backup = virtual_ip_send_state-Silent env
  table-Silent backup_up master = backupup-Silent env
  table-Silent backup_up rback = backupup-Silent env
  table-Silent backup_up s = pure-Silent env status_false
  table-Silent rback_req master = rollback-Silent env
  table-Silent rback_req rback = rback_stop-Silent env
  table-Silent rback_req s = pure-Silent env status_false
  table-Silent stop idle = pure-Silent env status_false
  table-Silent stop max_states = pure-Silent env status_false
  table-Silent stop s = go_down-Silent env
  table-Silent max_events idle = pure-Silent env status_false
  table-Silent max_events s = pure-Silent env status_false

  fsm_do_transaction-Silent : (e : Event) → Silent env (fsm_do_transaction env e)
  unfolding fsm_do_transaction
  fsm_do_transaction-Silent e = then_lem env (gets-Silent env (λ v. v.state)) λ state.
      if_lem env (not (is_event e) || not (is_state state)) (pure-Silent env status_false)
        (table-Silent e state)

  fsm_input_node_down-Silent : (nodeid : ℕ) → Silent env (fsm_input_node_down env nodeid)
  unfolding fsm_input_node_down
  fsm_input_node_down-Silent nodeid = then_lem env (gets-Silent env (λ v. v)) λ (vip : VirtualIp).
      then_lem env (node_remove-Silent env vip.node_list nodeid) λ node_list.
        then_lem env (modify-Silent env (λ v. record v { node_list = node_list })) λ u.
          then_lem env (modify-Silent env (forget_rollback nodeid))
            λ u. fsm_do_transaction-Silent (down_event vip nodeid)

  fsm_input_new_state_message-Silent :
      (nm : NodeMsg) (nodeid : ℕ) → Silent env (fsm_input_new_state_message env nm nodeid)
  unfolding fsm_input_new_state_message fsm_get_state
  fsm_input_new_state_message-Silent nm nodeid =
      then_lem env (gets-Silent env (λ v. v.node_list)) λ list.
        then_lem env (node_add-Silent env list nodeid nm.priority) λ node_list.
          then_lem env (modify-Silent env (λ v. record v { node_list = node_list })) λ u.
            then_lem env (modify-Silent env (note_master nm nodeid)) λ u.
              then_lem env (gets-Silent env (λ v. v)) λ (vip : VirtualIp).
                then_lem env (gets-Silent env (λ v. v.state)) λ state.
                  if_lem env (is_no_event (message_event state vip nm nodeid))
                    (pure-Silent env status_false)
                    (fsm_do_transaction-Silent (message_event state vip nm nodeid))

  present-Silent : {A : Type 0} (a : Option A) → Silent env (present a)
  present-Silent none w = faulted
  present-Silent (some a) w = returned refl

  track_loop-Silent :
      (profiles : List SofiaProfile) (name text : Bytes)
      → Silent env (track_loop env profiles name text)
  unfolding track_loop
  track_loop-Silent [] name text = pure-Silent env tt
  track_loop-Silent (p ∷ profiles) name text =
      if_lem env (bytes_eq p.name name) (utils_send_track_event-Silent env text p.name)
        (track_loop-Silent profiles name text)

  deliver_sql-Silent : (msg : Bytes) → Silent env (deliver_sql env msg)
  unfolding deliver_sql
  deliver_sql-Silent msg = then_lem env (gets-Silent env (λ v. v)) λ (vip : VirtualIp).
      then_lem env (present-Silent (c_str (drop sizeof_header msg))) λ name.
        then_lem env (present-Silent (c_str (drop (sizeof_header + max_sofia_name) msg)))
          λ text. track_loop-Silent vip.config.profiles name text

  deliver_state-Silent : (msg : Bytes) (nodeid : ℕ) → Silent env (deliver_state env msg nodeid)
  unfolding deliver_state
  deliver_state-Silent msg nodeid =
      then_lem env (present-Silent (read_word (drop sizeof_header msg))) λ priority.
        then_lem env (present-Silent (read_word (drop (sizeof_header + 4) msg))) λ state.
          then_lem env (present-Silent (c_str (drop (sizeof_header + 8) msg))) λ uuid.
            then_lem env
              (fsm_input_new_state_message-Silent
                (record { priority = to_int priority; state = state; runtime_uuid = uuid }) nodeid)
              λ s. pure-Silent env tt

  find_context-Silent : (result : ℤ) → Silent env (find_context env result)
  find_context-Silent result =
      if_lem env (eqb_ℤ result env.cs_ok) (gets-Silent env (λ v. v)) (λ w. faulted)

  deliver_callback-Silent :
      (nodeid : ℕ) (msg : Bytes) → Silent env (deliver_callback env nodeid msg)
  unfolding deliver_callback protocol
  deliver_callback-Silent nodeid msg =
      then_lem env (ask-Silent env cpg_context_get (λ a l. refl)) λ result.
        then_lem env (present-Silent (read_word msg)) λ type.
          if_lem env (type == msg_type_code sql)
            (then_lem env (find_context-Silent result) λ (vip : VirtualIp).
              if_lem env (vip.node_id == nodeid) (pure-Silent env tt) (deliver_sql-Silent msg))
            (if_lem env (type == msg_type_code node_state)
              (then_lem env (find_context-Silent result) λ vip. deliver_state-Silent msg nodeid)
              (pure-Silent env tt))

  left_loop-Silent : (left_list : List ℕ) → Silent env (left_loop env left_list)
  unfolding left_loop
  left_loop-Silent [] = pure-Silent env tt
  left_loop-Silent (nodeid ∷ left_list) =
      then_lem env (fsm_input_node_down-Silent nodeid) λ s. left_loop-Silent left_list

  confchg_callback-Silent :
      (members : ℕ) (left_list : List ℕ) (joined : Bool)
      → Silent env (confchg_callback env members left_list joined)
  unfolding confchg_callback fsm_input_node_up protocol
  confchg_callback-Silent members left_list joined =
      then_lem env (ask-Silent env cpg_context_get (λ a l. refl)) λ result.
        if_lem env (not (eqb_ℤ result env.cs_ok)) (pure-Silent env tt) (
          then_lem env (modify-Silent env (λ v. record v { member_list_entries = members })) λ u.
            then_lem env (left_loop-Silent left_list) λ u.
              if_lem env joined
                (then_lem env (fsm_do_transaction-Silent backup_up) λ s. pure-Silent env tt)
                (pure-Silent env tt))

  call_back-Silent : (cb : Callback) → Silent env (call_back env cb)
  unfolding call_back
  call_back-Silent (state_from nm nodeid) = deliver_callback-Silent nodeid (state_message nm)
  call_back-Silent (sql_from beyond name text nodeid) =
      deliver_callback-Silent nodeid (sql_message beyond name text)
  call_back-Silent (confchg members left_list joined) =
      confchg_callback-Silent members left_list joined

  call_all-Silent : (pending : List Callback) → Silent env (call_all env pending)
  unfolding call_all
  call_all-Silent [] = pure-Silent env tt
  call_all-Silent (cb ∷ pending) = then_lem env (call_back-Silent cb) λ u. call_all-Silent pending

  -- So the callbacks that `cpg_dispatch` makes do so too.
  pub dispatch_pending-Silent :
      (pending : World → List Callback) → Silent env (dispatch_pending env pending)
  unfolding protocol
  dispatch_pending-Silent pending w =
      then_lem env (call_all-Silent (pending w)) (λ u. ask-Silent env cpg_dispatch (λ a l. refl)) w
