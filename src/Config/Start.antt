-- ===== src/Config/Start.antt =====
-- The virtual ips that `do_config` of cpg_config.c loads, before they are started.
use freeswitch_mod_cpg.Base.{◌≡◌, ap, false, some, List, [], ◌∷◌, Bytes, All}
use freeswitch_mod_cpg.Types.{idle, VirtualIp}
use freeswitch_mod_cpg.World.{Env, World}
use freeswitch_mod_cpg.World.Returns.{Returns, weaken}
use freeswitch_mod_cpg.Arp.Ring.{HasRings}
use freeswitch_mod_cpg.Fsm.Transitions.{serves}
use freeswitch_mod_cpg.Input.Safety.{IsSound}
use freeswitch_mod_cpg.Config.{XmlVip, do_config}
use freeswitch_mod_cpg.Config.Registry.{IsConfigured}
use freeswitch_mod_cpg.Config.Loaded.{ReadsDotted, Loadable, do_config-IsLoaded}

-- A virtual ip as configured is sound from the start.
pub IsConfigured-IsSound :
    (v : VirtualIp) (w : World) → IsConfigured v → HasRings w.rings → IsSound (record w { vip = v })
IsConfigured-IsSound v w c h = record {
  safe = record {
    rings = h;
    owner = λ e. let off : serves v.state ≡ false = ap (λ u. serves u.state) c.fresh in cc;
  };
  order = rw (ap (λ u. u.node_list) c.fresh) tt;
}

All-map :
    {A : Type 0} (P Q : A → Type 0) (xs : List A) → ((x : A) → P x → Q x) → All P xs → All Q xs
All-map P Q [] f h = tt
All-map P Q (x ∷ xs) f h = (f x h.0, All-map P Q xs f h.1)

-- Every virtual ip that the configuration file puts into the empty hash satisfies the invariant of
-- the state machine, IDLE and without nodes. That is so whatever the calls of the module answer,
-- where libc takes no text longer than fifteen characters for an IPv4 address, every virtual ip of
-- the file has at most eight profiles and their names fit their fields, and the rings of arpator.c
-- are whole.
pub do_config-IsSound :
    (env : Env) (cfg : List XmlVip) (cf : Bytes) (w : World)
    → ReadsDotted env
    → All Loadable cfg
    → HasRings w.rings
    → Returns
        (λ r w'.
          All
            (λ e. (e.1.state ≡ idle) × (e.1.node_list ≡ []) × IsSound (record w' { vip = e.1 }))
            r.0)
        (do_config env (some cfg) cf [] w)
do_config-IsSound env cfg cf w dotted fits rings =
    weaken (do_config-IsLoaded env dotted cfg cf [] w fits (record { entries = tt; keys = tt }))
      λ r w' (l, (v, q)).
        All-map _ _ r.0
          (λ e (same, c). (
            ap (λ u. u.state) c.fresh,
            ap (λ u. u.node_list) c.fresh,
            IsConfigured-IsSound e.1 w' c (rw q rings),
          ))
          l.entries
