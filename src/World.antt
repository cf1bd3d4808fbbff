-- ===== src/World.antt =====
-- What the module calls and does not implement: corosync, libnl, sockets, FreeSWITCH and libc.
-- A call is logged with its answer, and the answer is a function of the calls made before it, so
-- a theorem for every `Env` is a theorem for every behaviour of the surroundings. An operation on
-- a virtual ip is a state passing function whose run may fault (undefined behaviour in C) or hang
-- (the fuel of a retry loop ran out).
pub mod Returns
pub mod Sleep
pub mod Partial
use freeswitch_mod_cpg.Base.{
  ℕ, suc, ℤ, pos, negsuc, Bool, true, false, Option, none, some, List, [], ◌∷◌, Bytes,
  if◌then◌else◌,
}
use freeswitch_mod_cpg.Types.{VirtualIp}

-- The statuses that the code names; `other` is any further one that FreeSWITCH returns.
pub data Status : Type 0 where
  success status_false status_term status_memerr : Status
  other : ℤ → Status

-- SWITCH_STATUS_SUCCESS is 0: `cmd_vip` tests a status by `!`.
abbrev pub status_of : ℤ → Status
status_of (pos ℕ.zero) = success
status_of (pos (suc n)) = other (pos (suc n))
status_of (negsuc n) = other (negsuc n)

abbrev pub is_success : Status → Bool
is_success success = true
is_success status_false = false
is_success status_term = false
is_success status_memerr = false
is_success (other z) = false

pub data Thread : Type 0 where
  virtual_ip_thread rollback_thread : Thread

pub data Call : Type 0 where
  -- libc and the kernel
  malloc calloc free_node : ℕ → Call
  yield_us : ℕ → Call
  system : Bytes → Call
  free_buffer : Call
  socket_packet socket_inet close_socket set_broadcast : Call
  ioctl_ifindex : Bytes → Call
  sendto : Bytes → ℤ → Bytes → Call
  inet_addr ether_aton : Bytes → Call
  inet_pton : Bytes → Call
  if_nametoindex : Bytes → Call
  -- libnl
  nl_handle_alloc nl_connect nl_handle_destroy nl_close : Call
  rtnl_addr_alloc rtnl_addr_put nl_addr_build nl_addr_put : Call
  rtnl_addr_add rtnl_addr_delete : Bytes → ℤ → Call
  rtnl_link_alloc_cache rtnl_link_get_addr rtnl_link_put nl_addr_destroy nl_addr2str : Call
  rtnl_link_get_by_name : Bytes → Call
  -- FreeSWITCH
  api_execute : Bytes → Bytes → Call
  event_create : Call
  event_fire : List (Bytes × Bytes) → Call
  xml_open_root xml_free : Call
  xml_open_cfg : Bytes → Call
  core_alloc : Call
  core_hash_insert : Bytes → Call
  file_exists : Bytes → Call
  gethostname core_db_handle db_execute db_release : Call
  mprintf_channels : Bytes → Bytes → Call
  core_get_uuid : Call
  core_hash_init core_hash_destroy event_unbind : Call
  create_module_interface event_bind add_api set_complete : Bytes → Call
  add_complete_func del_complete_func strdup : Bytes → Call
  thread_create : Thread → Call
  thread_join : Thread → ℕ → Call
  -- corosync
  cpg_mcast_joined : ℕ → Bytes → Call
  cpg_context_get : Call
  cpg_initialize cpg_context_set cpg_fd_get cpg_local_get cpg_dispatch cpg_leave cpg_finalize : Call
  cpg_join : Bytes → Call
  select_fd : ℕ → Call

pub record Entry : Type 0 where
  pub call : Call
  pub answer : ℤ

abbrev pub entry : Call → ℤ → Entry
entry c a = record { call = c; answer = a }

-- Newest first.
abbrev pub Log : Type 0
Log = List Entry

-- `answer` is the int, the status or the pointer (0 is NULL) that a call returns, `stored` what it
-- leaves behind its out parameter, `text` the string or the bytes that it returns.
pub record Env : Type 0 where
  pub answer : Log → Call → ℤ
  pub stored : Log → Call → ℕ
  pub text : Log → Call → Bytes
  pub cs_ok : ℤ
  pub cs_err_try_again : ℤ
  -- SWITCH_GLOBAL_dirs.conf_dir and .base_dir; libc's `atoi`; what `%q` of `switch_mprintf` makes of
  -- a string.
  pub conf_dir : Bytes
  pub base_dir : Bytes
  pub atoi : Bytes → ℤ
  pub quoted : Bytes → Bytes
  -- What memory holds behind the NUL of a string.
  pub beyond : Bytes → Bytes
  -- What the stack holds where `net_send_arp` has its uninitialised `pktbuf`.
  pub pktbuf : Bytes
  -- The fuel of the loop in `send_message`.
  pub patience : ℕ

-- The variables of arpator.c that outlive a call: the static rings of `ip_aton` and `eth_aton`,
-- each with its next index, and the global `mac_broadcast`. Addresses are their bytes in memory.
pub record Rings : Type 0 where
  pub ip_result : List Bytes
  pub ip_index : ℕ
  pub eth_result : List Bytes
  pub eth_index : ℕ
  pub mac_broadcast : Bytes

pub record World : Type 0 where
  pub vip : VirtualIp
  pub rings : Rings
  pub log : Log

pub data Outcome (A : Type 0) : Type 0 where
  done : A → World → Outcome A
  fault hang : Outcome A

abbrev pub M : Type 0 → Type 0
M A = World → Outcome A

abbrev pub and_then : {A B : Type 0} → Outcome A → (A → M B) → Outcome B
and_then (done a w) f = f a w
and_then fault f = fault
and_then hang f = hang

infixl 5 ◌>>=◌ ◌>>◌
abbrev pub ◌>>=◌ : {A B : Type 0} → M A → (A → M B) → M B
◌>>=◌ m f w = and_then (m w) f

abbrev pub ◌>>◌ : {A B : Type 0} → M A → M B → M B
◌>>◌ m k w = and_then (m w) (λ _. k)

abbrev pub pure : {A : Type 0} → A → M A
pure a w = done a w

abbrev pub gets : {A : Type 0} → (VirtualIp → A) → M A
gets f w = done (f w.vip) w

abbrev pub get_rings : {A : Type 0} → (Rings → A) → M A
get_rings f w = done (f w.rings) w

abbrev pub modify_rings : (Rings → Rings) → M (Unit {0})
modify_rings f w = done tt (record w { rings = f w.rings })

-- Undefined behaviour.
abbrev pub crash : {A : Type 0} → M A
crash w = fault

abbrev pub modify : (VirtualIp → VirtualIp) → M (Unit {0})
modify f w = done tt (record w { vip = f w.vip })

module _ (env : Env) where
  -- Makes a call: logs it with its answer, which it returns.
  abbrev pub ask : Call → M ℤ
  ask c w = let a = env.answer w.log c in done a (record w { log = entry c a ∷ w.log })

  -- A call whose result is not used.
  abbrev pub tell : Call → M (Unit {0})
  tell c w = done tt (record w { log = entry c (env.answer w.log c) ∷ w.log })

  -- A call with its answer and what it stores behind its out parameter.
  abbrev pub ask_stored : Call → M (ℤ × ℕ)
  ask_stored c w =
      let a = env.answer w.log c in
      done (a, env.stored w.log c) (record w { log = entry c a ∷ w.log })

  -- A call that returns a pointer to text; none is NULL.
  abbrev pub ask_text : Call → M (ℤ × Bytes)
  ask_text c w =
      let a = env.answer w.log c in
      done (a, env.text w.log c) (record w { log = entry c a ∷ w.log })
