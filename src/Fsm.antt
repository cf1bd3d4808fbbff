-- ===== src/Fsm.antt =====
-- fsm.c: the state machine of a virtual ip, its table of actions and the actions. Log messages are
-- left out. The threads that `go_up` and `rollback` create run beside the machine: here their
-- creation and the joins of `go_down` are calls.
pub mod Down
pub mod Takeover
pub mod Transitions
pub mod Mastery
pub mod OneMaster
pub mod Updates
use freeswitch_mod_cpg.Base.{
  ℕ, Bool, true, false, not, ◌&&◌, ◌||◌, List, [], ◌∷◌, Bytes, ◌==◌, zstr, if◌then◌else◌,
}
use freeswitch_mod_cpg.Types.{
  Event, startup, duplicate, master_down, master_up, backup_down, backup_up, rback_req, stop,
  max_events, State, idle, start, backup, master, rback, max_states, SofiaProfile, VirtualIp, Node,
}
use freeswitch_mod_cpg.World.{
  Env, M, Status, success, status_false, status_of, is_success, Thread, virtual_ip_thread,
  rollback_thread, thread_create, thread_join, ◌>>=◌, ◌>>◌, pure, gets, modify, crash, tell,
  ask_stored,
}
use freeswitch_mod_cpg.Node.{node_first, node_remove_all}
use freeswitch_mod_cpg.Utils.Ip.{utils_add_vip, utils_remove_vip}
use freeswitch_mod_cpg.Utils.Garp.{utils_send_g_arp}
use freeswitch_mod_cpg.Utils.Sofia.{utils_hupall, utils_recover, utils_clean_up_table}
use freeswitch_mod_cpg.VirtualIp.Message.{virtual_ip_send_state, virtual_ip_send_all_sql}

-- The assignments of `go_down` before the list is freed.
abbrev pub reset : VirtualIp → VirtualIp
reset v = record v {
  state = idle;
  master_id = 0;
  member_list_entries = 0;
  node_id = 0;
  rollback_node_id = 0;
}

-- The range checks of `fsm_do_transaction`: MAX_EVENTS and MAX_STATES end the enumerations.
abbrev pub is_event : Event → Bool
is_event max_events = false
is_event _ = true

abbrev pub is_state : State → Bool
is_state max_states = false
is_state _ = true

-- A row of the table, in the order of the states.
abbrev row : (idle start backup master rback : M Status) → State → M Status
row a b c d e idle = a
row a b c d e start = b
row a b c d e backup = c
row a b c d e master = d
row a b c d e rback = e
row a b c d e max_states = pure status_false

module _ (env : Env) where
  unfoldable pub noop : M Status
  noop = pure success

  unfoldable pub error : M Status
  error = pure status_false

  unfoldable pub dup_warn : M Status
  dup_warn = pure success

  unfoldable pub nodeup : M Status
  nodeup = virtual_ip_send_state env

  -- The C code returns `a && b` of two statuses: SUCCESS, which is 0, unless both are failures.
  unfoldable pub backupup : M Status
  backupup = do
    status ← virtual_ip_send_state env
    all ← virtual_ip_send_all_sql env
    pure (if not (is_success all) && not (is_success status) then status_false else success)

  -- `vip->node_list->nodeid` of an empty list is a read through NULL.
  abbrev head_id : List Node → M ℕ
  head_id [] = crash
  head_id (n ∷ rest) = pure n.nodeid

  unfoldable pub rollback : M Status
  rollback = do
    vip ← gets (λ v. v)
    first ← head_id vip.node_list
    if first == vip.node_id then pure success else do
      modify (λ v. record v { rollback_node_id = first; state = rback })
      (status, thread) ← ask_stored env (thread_create rollback_thread)
      modify (λ v. record v { rollback_thread = thread })
      pure (status_of status)

  -- The loops over the profiles end at the first empty name.
  unfoldable pub hupall_loop : List SofiaProfile → M (Unit {0})
  hupall_loop [] = pure tt
  hupall_loop (p ∷ profiles) =
      if zstr p.name then pure tt else do utils_hupall env p.name; hupall_loop profiles

  unfoldable pub recover_loop : List SofiaProfile → M (Unit {0})
  recover_loop [] = pure tt
  recover_loop (p ∷ profiles) = if zstr p.name then pure tt else do
    if p.autorecover then (utils_recover env p.name >> pure tt) else pure tt
    recover_loop profiles

  unfoldable pub clean_up_loop : Bytes → List SofiaProfile → M (Unit {0})
  clean_up_loop runtime_uuid [] = pure tt
  clean_up_loop runtime_uuid (p ∷ profiles) =
      if zstr p.name
      then pure tt
      else do utils_clean_up_table env runtime_uuid p.name; clean_up_loop runtime_uuid profiles

  -- `switch_thread_join` of a thread that is there.
  unfoldable pub join : Thread → ℕ → M (Unit {0})
  join t thread = if thread == 0 then pure tt else tell env (thread_join t thread)

  unfoldable pub go_down : M Status
  unfolding hupall_loop
  go_down = do
    modify reset
    vip ← gets (λ v. v)
    node_remove_all env vip.node_list
    modify (λ v. record v { node_list = [] })
    join rollback_thread vip.rollback_thread
    modify (λ v. record v { rollback_thread = 0 })
    join virtual_ip_thread vip.virtual_ip_thread
    modify (λ v. record v { virtual_ip_thread = 0 })
    utils_remove_vip env vip.config.address vip.config.device
    hupall_loop vip.config.profiles
    pure success

  -- The label `error` of `act` and `react`.
  abbrev pub give_up : M Status
  give_up = do go_down; pure status_false

  -- Taking the address: `true` once it is added and announced.
  unfoldable pub take_address : VirtualIp → M Bool
  take_address vip = do
    added ← utils_add_vip env vip.config.address vip.config.device
    if not (is_success added) then pure false else do
      announced ← utils_send_g_arp env vip.config.mac vip.config.address vip.config.device
      if is_success announced
          then pure true
          else do utils_remove_vip env vip.config.address vip.config.device; pure false

  unfoldable pub act : M Status
  unfolding take_address
  act = do
    vip ← gets (λ v. v)
    if vip.node_id == node_first vip.node_list
        then (do
          modify (λ v. record v { state = master })
          taken ← take_address vip
          if taken then (do virtual_ip_send_state env; pure success) else give_up)
        else give_up

  unfoldable pub react : M Status
  unfolding take_address recover_loop clean_up_loop
  react = do
    vip ← gets (λ v. v)
    if vip.node_id == node_first vip.node_list
        then (do
          modify (λ v. record v { state = master })
          taken ← take_address vip
          if taken
              then (do recover_loop vip.config.profiles; virtual_ip_send_state env; pure success)
              else give_up)
        else (do clean_up_loop vip.runtime_uuid vip.config.profiles; pure success)

  unfoldable pub observe : M Status
  observe = do modify (λ v. record v { state = backup }); pure success

  unfoldable pub go_up : M Status
  go_up = do
    modify (λ v. record v { state = start })
    (status, thread) ← ask_stored env (thread_create virtual_ip_thread)
    modify (λ v. record v { virtual_ip_thread = thread })
    pure success

  unfoldable pub rback_stop : M Status
  rback_stop = do
    vip ← gets (λ v. v)
    if (vip.rollback_node_id == 0) || not (vip.rollback_node_id == node_first vip.node_list)
        then (do modify (λ v. record v { state = master }); pure success)
        else pure success

  unfoldable pub table : Event → State → M Status
  table startup = row go_up error error error error
  table duplicate = row error go_down dup_warn dup_warn dup_warn
  table master_down = row error act react error error
  table master_up = row error observe error error error
  table backup_down = row error noop noop noop rback_stop
  table backup_up = row error nodeup nodeup backupup backupup
  table rback_req = row error error error rollback rback_stop
  table stop = row error go_down go_down go_down go_down
  table max_events = row error error error error error

  unfoldable pub fsm_do_transaction : Event → M Status
  unfolding table
  fsm_do_transaction event = do
    state ← gets (λ v. v.state)
    if not (is_event event) || not (is_state state) then pure status_false else table event state

  unfoldable pub fsm_get_state : M State
  fsm_get_state = gets (λ v. v.state)
