-- ===== src/Module.antt =====
-- mod_cpg.c: the virtual ips of the module, what is done to all of them, the event handler, the
-- command `cpg vip` and one round of the runtime thread; and the lookups of cpg_virtual_ip.c. The
-- hash of virtual ips is an association list in the order of its iteration; the virtual ip of the
-- world is the one that a call is about. Text written to a stream is the `Reply` it stands for.
pub mod Arbiter
pub mod Lookup
pub mod Command
pub mod Report
pub mod Api
use freeswitch_mod_cpg.Base.{
  ℤ, is_zero, Bool, true, false, Option, none, some, List, [], ◌∷◌, ◌++◌, Bytes, codes, snprintf,
  bytes_eq, if◌then◌else◌,
}
use freeswitch_mod_cpg.Types.{VirtualIp}
use freeswitch_mod_cpg.World.{
  Env, M, Status, success, is_success, system, yield_us, ◌>>=◌, ◌>>◌, pure, gets, modify, ask, tell,
}
use freeswitch_mod_cpg.VirtualIp.Message.{virtual_ip_send_sql}
use freeswitch_mod_cpg.VirtualIp.Profiles.{has_profile}
use freeswitch_mod_cpg.Input.{fsm_input_cmd_start, fsm_input_cmd_stop}

abbrev pub Hash : Type 0
Hash = List (Bytes × VirtualIp)

unfoldable pub find_virtual_ip : Hash → Bytes → Option VirtualIp
find_virtual_ip [] address = none
find_virtual_ip ((key, vip) ∷ hash) address =
    if bytes_eq key address then some vip else find_virtual_ip hash address

unfoldable pub find_virtual_ip_from_profile : Hash → Bytes → Option VirtualIp
unfolding has_profile
find_virtual_ip_from_profile [] profile_name = none
find_virtual_ip_from_profile ((key, vip) ∷ hash) profile_name =
    if has_profile vip.config.profiles profile_name
    then some vip
    else find_virtual_ip_from_profile hash profile_name

-- The store of a virtual ip in place of the one with this address.
unfoldable pub update_vip : Hash → Bytes → VirtualIp → Hash
update_vip [] address vip = []
update_vip ((key, old) ∷ hash) address vip =
    if bytes_eq key address then (key, vip) ∷ hash else (key, old) ∷ update_vip hash address vip

pub data Reply : Type 0 where
  invalid_profile invalid_args starting already_running : Reply
  stopping not_running unknown_command : Reply

-- A call of a function about this virtual ip, which comes back with the function's result.
abbrev pub about : {A : Type 0} → VirtualIp → M A → M (A × VirtualIp)
about vip vip_func = do modify (λ _. vip); a ← vip_func; vip ← gets (λ v. v); pure (a, vip)

unfoldable pub map_vip : M Status → Hash → M Hash
map_vip vip_func [] = pure []
map_vip vip_func ((key, vip) ∷ hash) = do
  (_, vip) ← about vip vip_func
  hash ← map_vip vip_func hash
  pure ((key, vip) ∷ hash)

module _ (env : Env) where
  unfoldable pub virtual_ip_start : M Status
  virtual_ip_start = fsm_input_cmd_start env

  unfoldable pub virtual_ip_stop : M Status
  virtual_ip_stop = fsm_input_cmd_stop env

  unfoldable pub autostart_vip : M Status
  unfolding virtual_ip_start
  autostart_vip = do
    autoload ← gets (λ v. v.config.autoload)
    if autoload then (virtual_ip_start >> pure success) else pure success

  -- A missing header is an empty string, never NULL.
  unfoldable pub event_handler : Hash → Bytes → Bytes → M (Unit {0})
  unfolding find_virtual_ip_from_profile
  event_handler hash sql profile_name = send (find_virtual_ip_from_profile hash profile_name)
    where
      send : Option VirtualIp → M (Unit {0})
      send none = pure tt
      send (some vip) = do about vip (virtual_ip_send_sql env (some profile_name) sql); pure tt

  -- One round of the loop of the runtime thread: the arbiter script decides.
  unfoldable pub runtime_round : Hash → Bool → M (Hash × Bool)
  unfolding map_vip autostart_vip virtual_ip_stop
  runtime_round hash is_connected = do
    failed ← ask env (system (snprintf 128 (env.base_dir ++ codes "/bin/arbiter.sh")))
    if is_zero failed
        then (if is_connected
            then pure (hash, true)
            else do hash ← map_vip autostart_vip hash; pure (hash, true))
        else (do hash ← map_vip virtual_ip_stop hash; pure (hash, false))

  module _ (strcasecmp : Bytes → Bytes → ℤ) where
    -- A command for a virtual ip that is there.
    abbrev pub command : VirtualIp → Bytes → M (Reply × VirtualIp)
    command vip word =
        if is_zero (strcasecmp word (codes "start"))
        then (do
          (status, vip) ← about vip virtual_ip_start
          pure ((if is_success status then starting else already_running), vip))
        else if is_zero (strcasecmp word (codes "stop"))
        then (do
          (status, vip) ← about vip virtual_ip_stop
          pure ((if is_success status then stopping else not_running), vip))
        else pure (unknown_command, vip)

    -- The address, and the words that follow it; the result is always SWITCH_STATUS_SUCCESS.
    unfoldable pub cmd_vip : Hash → Bytes → List Bytes → M (Reply × Hash)
    unfolding find_virtual_ip update_vip virtual_ip_start virtual_ip_stop
    cmd_vip hash address words = found (find_virtual_ip hash address) words
      where
        found : Option VirtualIp → List Bytes → M (Reply × Hash)
        found none words = pure (invalid_profile, hash)
        found (some vip) (word ∷ []) = do
          (reply, vip) ← command vip word
          pure (reply, update_vip hash address vip)
        found (some vip) _ = pure (invalid_args, hash)
