-- ===== src/Callbacks.antt =====
-- cpg_virtual_ip.c: the callbacks that corosync makes in the thread of a virtual ip. A read behind
-- the end of a message is a fault; the code never looks at the length of a message. The context that
-- `cpg_context_get` finds is the virtual ip.
pub mod Roundtrip
pub mod Safety
pub mod Views
pub mod Failover
use freeswitch_mod_cpg.Base.{
  ℕ, ◌+◌, ◌-◌, ◌*◌, ◌^◌, ℤ, pos, negsuc, ltb, Bool, true, false, eqb_ℤ, not, Option, none, some,
  List, [], ◌∷◌, Bytes, ◌≡◌, drop, bytes_eq, ◌==◌, if◌then◌else◌,
}
use freeswitch_mod_cpg.Types.{SofiaProfile, VirtualIp, NodeMsg, max_sofia_name}
use freeswitch_mod_cpg.World.{
  Env, M, Log, cpg_context_get, ◌>>=◌, ◌>>◌, pure, gets, modify, crash, ask, tell,
}
use freeswitch_mod_cpg.Utils.Sofia.{utils_send_track_event}
use freeswitch_mod_cpg.VirtualIp.Message.{sql, node_state, msg_type_code}
use freeswitch_mod_cpg.Input.{fsm_input_node_down, fsm_input_node_up, fsm_input_new_state_message}

-- The four bytes of an unsigned int.
unfoldable pub read_word : Bytes → Option ℕ
read_word (a ∷ b ∷ c ∷ d ∷ rest) = some (a + 256 * b + 65536 * c + 16777216 * d)
read_word _ = none

-- The int with this bit pattern.
abbrev pub to_int : ℕ → ℤ
to_int w = if ltb w (2 ^ 31) then pos w else negsuc (2 ^ 32 - w - 1)

-- The string that starts here, up to its NUL.
unfoldable pub c_str : Bytes → Option Bytes
c_str [] = none
c_str (c ∷ s) = let rest = c_str s in if c == 0 then some [] else cons_str c rest
  where
    cons_str : ℕ → Option Bytes → Option Bytes
    cons_str c none = none
    cons_str c (some s) = some (c ∷ s)

abbrev pub sizeof_header : ℕ
sizeof_header = 8

abbrev pub present : {A : Type 0} → Option A → M A
present none = crash
present (some a) = pure a

-- Corosync finds the context in every callback.
abbrev pub HasContext : Env → Type 0
HasContext env = (log : Log) → eqb_ℤ (env.answer log cpg_context_get) env.cs_ok ≡ true

module _ (env : Env) where
  -- The first profile of this name, an empty entry of the array included, gets the statement.
  unfoldable pub track_loop : List SofiaProfile → Bytes → Bytes → M (Unit {0})
  track_loop [] profile_name sql_text = pure tt
  track_loop (p ∷ profiles) profile_name sql_text =
      if bytes_eq p.name profile_name
      then utils_send_track_event env sql_text p.name
      else track_loop profiles profile_name sql_text

  unfoldable pub deliver_sql : Bytes → M (Unit {0})
  unfolding track_loop
  deliver_sql msg = do
    vip ← gets (λ v. v)
    profile_name ← present (c_str (drop sizeof_header msg))
    sql_text ← present (c_str (drop (sizeof_header + max_sofia_name) msg))
    track_loop vip.config.profiles profile_name sql_text

  unfoldable pub deliver_state : Bytes → ℕ → M (Unit {0})
  deliver_state msg nodeid = do
    priority ← present (read_word (drop sizeof_header msg))
    state ← present (read_word (drop (sizeof_header + 4) msg))
    runtime_uuid ← present (c_str (drop (sizeof_header + 8) msg))
    let nm : NodeMsg = record {
      priority = to_int priority;
      state = state;
      runtime_uuid = runtime_uuid;
    }
    fsm_input_new_state_message env nm nodeid
    pure tt

  -- The virtual ip behind the pointer `context`: nothing has written it where `cpg_context_get` fails,
  -- which is not looked at, and to follow it is a fault then.
  abbrev pub find_context : ℤ → M VirtualIp
  find_context result = if eqb_ℤ result env.cs_ok then gets (λ v. v) else crash

  unfoldable pub deliver_callback : ℕ → Bytes → M (Unit {0})
  unfolding deliver_sql deliver_state
  deliver_callback nodeid msg = do
    result ← ask env cpg_context_get
    type ← present (read_word msg)
    if type == msg_type_code sql
        then (do
          vip ← find_context result
          if vip.node_id == nodeid then pure tt else deliver_sql msg)
        else if type == msg_type_code node_state
        then (do find_context result; deliver_state msg nodeid)
        else pure tt

  unfoldable pub left_loop : List ℕ → M (Unit {0})
  left_loop [] = pure tt
  left_loop (nodeid ∷ left_list) = do fsm_input_node_down env nodeid; left_loop left_list

  -- `joined` tells whether the joined list has an entry.
  unfoldable pub confchg_callback : ℕ → List ℕ → Bool → M (Unit {0})
  unfolding left_loop
  confchg_callback member_list_entries left_list joined = do
    result ← ask env cpg_context_get
    if not (eqb_ℤ result env.cs_ok) then pure tt else do
      modify (λ v. record v { member_list_entries = member_list_entries })
      left_loop left_list
      if joined then (do fsm_input_node_up env; pure tt) else pure tt
