-- ===== src/Entry/Load.antt =====
-- Loading and unloading the module in mod_cpg.c.
use freeswitch_mod_cpg.Base.{
  ◌≡◌, ◌⊎◌, refl, ap, inl, inr, true, false, Bool-cases, Option, none, some, List, [], ◌∷◌, Bytes,
  All, codes,
}
use freeswitch_mod_cpg.Types.{idle, start, VirtualIp}
use freeswitch_mod_cpg.World.{
  Env, World, Status, success, status_term, status_of, is_success, event_bind,
}
use freeswitch_mod_cpg.World.Returns.{Returns, returns, bind, weaken}
use freeswitch_mod_cpg.Config.{XmlVip, do_config}
use freeswitch_mod_cpg.Config.Registry.{IsConfigured}
use freeswitch_mod_cpg.Config.Loaded.{ReadsDotted, Loadable, do_config-IsLoaded}
use freeswitch_mod_cpg.Module.{Hash, map_vip, autostart_vip}
use freeswitch_mod_cpg.Module.Arbiter.{
  Pointwise, Stops, AutoStarts, IsState, autostart_vip-AutoStarts, map_vip-Pointwise, All-unit,
  map_stop,
}
use freeswitch_mod_cpg.Entry.{Globals, bind_events, mod_cpg_load, mod_cpg_shutdown}

-- A virtual ip right after the module has been loaded: started just where it is to be loaded
-- automatically.
abbrev pub Loaded : VirtualIp → Type 0
Loaded v =
    ((v.config.autoload ≡ true) × (v.state ≡ start))
    ⊎ ((v.config.autoload ≡ false) × (v.state ≡ idle))

abbrev pub IsIdle : VirtualIp → Type 0
IsIdle v = v.state ≡ idle

-- How loading ends: with every virtual ip of the configuration loaded, or with none started.
abbrev pub LoadEnds : Status × Globals → Type 0
LoadEnds (status, g) =
    ((status ≡ success) × (g.running ≡ true) × All (λ e. Loaded e.1) g.virtual_ip_hash)
    ⊎ ((status ≡ status_term) × (g.running ≡ false) × All (λ e. IsIdle e.1) g.virtual_ip_hash)

pub All-Pointwise :
    (P Q : VirtualIp → Type 0) (R : VirtualIp → VirtualIp → Type 0)
    → ((v v' : VirtualIp) → P v → R v v' → Q v')
    → (hash hash' : Hash) → All (λ e. P e.1) hash
    → Pointwise R hash hash'
    → All (λ e. Q e.1) hash'
All-Pointwise P Q R f [] [] p r = tt
All-Pointwise P Q R f [] (e ∷ hash') p r = absurd r
All-Pointwise P Q R f (e ∷ hash) [] p r = absurd r
All-Pointwise P Q R f ((key, v) ∷ hash) ((key', v') ∷ hash') p r =
    (f v v' p.0 r.1, All-Pointwise P Q R f hash hash' p.1 r.2)

abbrev pub AllLoadable : Option (List XmlVip) → Type 0
AllLoadable none = Unit {0}
AllLoadable (some cfg) = All Loadable cfg

AutoStarts-Loaded : (v v' : VirtualIp) → IsIdle v → AutoStarts v v' → Loaded v'
AutoStarts-Loaded v v' i (inl (auto, inl (h, (thread, e)))) = inl (rw e auto, ap (λ u. u.state) e)
AutoStarts-Loaded v v' i (inl (auto, inr (h, e))) = absurd (h i)
AutoStarts-Loaded v v' i (inr (auto, e)) = inr (rw e auto, rw e i)

IsLoaded-IsIdle :
    (hash : Hash)
    → All (λ e. (e.0 ≡ e.1.config.address) × IsConfigured e.1) hash
    → All (λ e. IsIdle e.1) hash
IsLoaded-IsIdle [] l = tt
IsLoaded-IsIdle (e ∷ hash) l = (ap (λ u. u.state) l.0.1.fresh, IsLoaded-IsIdle hash l.1)

module _ (env : Env) where
  map_autostart :
      (hash : Hash) (w : World)
      → All (λ e. IsIdle e.1) hash
      → Returns (λ hash' w'. All (λ e. Loaded e.1) hash') (map_vip (autostart_vip env) hash w)
  map_autostart hash w idles =
      weaken
        (map_vip-Pointwise (λ v. Unit {0}) AutoStarts (autostart_vip env)
          (λ w1 p. autostart_vip-AutoStarts env w1) hash w (All-unit hash))
        λ hash' w' r. All-Pointwise IsIdle Loaded AutoStarts AutoStarts-Loaded hash hash' idles r

  bind_events-LoadEnds :
      (modname : Bytes) (hash : Hash) (w : World)
      → All (λ e. IsIdle e.1) hash
      → Returns (λ r w'. LoadEnds r) (bind_events env modname hash w)
  bind_events-LoadEnds modname hash w idles =
      elim (Bool-cases (is_success (status_of (env.answer w.log (event_bind modname))))) [
        | inl ok ↦
            rw ok (bind (map_autostart hash _ idles) λ hash' w1 k. returns (inl (refl, refl, k)))
        | inr failed ↦ rw failed (returns (inr (refl, refl, idles)))
      ]

  -- Loading the module returns, whatever its calls answer, with one of two outcomes. Either it
  -- succeeds and the module runs, every virtual ip of the hash with `autoload` is in state START
  -- and every other one IDLE; or it gives SWITCH_STATUS_TERM, the module does not run, and every
  -- virtual ip is IDLE. That is so where libc takes no text longer than fifteen characters for an
  -- IPv4 address, and, if the configuration file opens, every virtual ip of it has at most eight
  -- profiles and their names fit their fields.
  pub mod_cpg_load-LoadEnds :
      (cfg : Option (List XmlVip)) (modname : Bytes) (w : World)
      → ReadsDotted env
      → AllLoadable cfg
      → Returns (λ r w'. LoadEnds r) (mod_cpg_load env cfg modname w)
  unfolding mod_cpg_load do_config
  mod_cpg_load-LoadEnds none modname w dotted fits = returns (inr (refl, refl, tt))
  mod_cpg_load-LoadEnds (some cfg) modname w dotted fits =
      bind
        (do_config-IsLoaded env dotted cfg (codes "cpg.conf") [] _ fits
          (record { entries = tt; keys = tt }))
        λ r w1 (l, same).
          let idles = IsLoaded-IsIdle r.0 l.entries in
          elim (Bool-cases (is_success r.1)) [
            | inl ok ↦ rw ok (bind_events-LoadEnds modname r.0 w1 idles)
            | inr failed ↦ rw failed (returns (inr (refl, refl, idles)))
          ]

  -- Shutting the module down returns with success, whatever its calls answer, for virtual ips in
  -- one of the five states: the module no longer runs, every virtual ip has its key, and each was
  -- IDLE and is unchanged or has gone down.
  pub mod_cpg_shutdown-Stops :
      (g : Globals) (w : World)
      → All (λ e. IsState e.1) g.virtual_ip_hash
      → Returns
          (λ r w'.
            (r.0 ≡ success)
            × (r.1.running ≡ false)
            × Pointwise Stops g.virtual_ip_hash r.1.virtual_ip_hash)
          (mod_cpg_shutdown env g w)
  unfolding mod_cpg_shutdown
  mod_cpg_shutdown-Stops g w states =
      bind (map_stop env g.virtual_ip_hash _ states) λ hash w1 k. returns (refl, refl, k)
