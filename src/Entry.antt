-- ===== src/Entry.antt =====
-- mod_cpg.c: what FreeSWITCH calls to load the module, to run its thread and to shut it down. The
-- configuration file is a parameter, as in Config; `elsewhere` is what the commands, the virtual
-- ips' own threads and the callbacks make of the hash while the runtime thread sleeps.
pub mod Load
pub mod Fences
use freeswitch_mod_cpg.Base.{
  ℕ, zero, suc, Bool, true, false, Option, List, [], Bytes, codes, if◌then◌else◌, not,
}
use freeswitch_mod_cpg.World.{
  Env, M, Status, success, status_term, status_of, is_success, create_module_interface,
  core_hash_init, core_hash_destroy, event_bind, event_unbind, add_api, set_complete,
  add_complete_func, del_complete_func, yield_us, ◌>>=◌, ◌>>◌, pure, ask, tell,
}
use freeswitch_mod_cpg.Config.{XmlVip, do_config}
use freeswitch_mod_cpg.Module.{Hash, map_vip, autostart_vip, virtual_ip_stop, runtime_round}

-- `globals`, but for what FreeSWITCH alone uses.
pub record Globals : Type 0 where
  pub virtual_ip_hash : Hash
  pub running : Bool
  pub is_connected : Bool

-- The globals after `memset`, with the hash and whether the module runs.
abbrev pub globals_with : Hash → Bool → Globals
globals_with hash running = record {
  virtual_ip_hash = hash;
  running = running;
  is_connected = false;
}

module _ (env : Env) where
  -- The API command and the console's completion.
  abbrev pub announce : M (Unit {0})
  announce = do
    tell env (add_api (codes "cpg"))
    tell env (set_complete (codes "add cpg help"))
    tell env (set_complete (codes "add cpg status"))
    tell env (set_complete (codes "add cpg vip"))
    tell env (set_complete (codes "add cpg vip ::cpg::list_vips start"))
    tell env (set_complete (codes "add cpg vip ::cpg::list_vips stop"))
    tell env (add_complete_func (codes "::cpg::list_vips"))

  -- From the binding of the event handler on.
  abbrev pub bind_events : Bytes → Hash → M (Status × Globals)
  bind_events modname hash = do
    bound ← ask env (event_bind modname)
    if not (is_success (status_of bound)) then pure (status_term, globals_with hash false) else do
      hash ← map_vip (autostart_vip env) hash
      announce
      pure (success, globals_with hash true)

  unfoldable pub mod_cpg_load : Option (List XmlVip) → Bytes → M (Status × Globals)
  unfolding do_config map_vip autostart_vip
  mod_cpg_load cfg modname = do
    tell env (create_module_interface modname)
    tell env core_hash_init
    (hash, status) ← do_config env cfg (codes "cpg.conf") []
    if not (is_success status)
        then pure (status_term, globals_with hash false)
        else bind_events modname hash

  unfoldable pub mod_cpg_shutdown : Globals → M (Status × Globals)
  unfolding map_vip virtual_ip_stop
  mod_cpg_shutdown globals = do
    tell env (del_complete_func (codes "::cpg::list_vips"))
    tell env (set_complete (codes "del cpg"))
    hash ← map_vip (virtual_ip_stop env) globals.virtual_ip_hash
    tell env event_unbind
    tell env core_hash_destroy
    pure (success, record globals { virtual_ip_hash = hash; running = false })

  module _ (elsewhere : Hash → Hash) where
    -- The `while` loop; `globals.running` stays true for so many rounds.
    unfoldable pub runtime_loop : ℕ → Hash → Bool → M (Hash × Bool)
    unfolding runtime_round
    runtime_loop zero hash is_connected = pure (hash, is_connected)
    runtime_loop (suc rounds) hash is_connected = do
      (hash, is_connected) ← runtime_round env hash is_connected
      tell env (yield_us 5000000)
      runtime_loop rounds (elsewhere hash) is_connected

    unfoldable pub mod_cpg_runtime : ℕ → Hash → M (Status × Hash × Bool)
    unfolding runtime_loop
    mod_cpg_runtime rounds hash = do
      (hash, is_connected) ← runtime_loop rounds hash true
      pure (status_term, hash, is_connected)
