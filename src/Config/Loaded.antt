-- ===== src/Config/Loaded.antt =====
-- What `do_config` of cpg_config.c loads.
use freeswitch_mod_cpg.Base.{
  ℕ, zero, suc, ◌≤◌, pos, is_zero, eqb_ℤ_sound, ◌≡◌, ◌≢◌, ◌∙◌, refl, ap, inl, inr, true, Bool-cases,
  Option, none, some, List, [], ◌∷◌, Bytes, All, length, take, arith,
}
use freeswitch_mod_cpg.Types.{Config, VirtualIp}
use freeswitch_mod_cpg.World.{
  Env, World, M, ◌>>=◌, Log, Status, success, status_of, is_success, inet_pton, core_alloc,
  core_hash_insert,
}
use freeswitch_mod_cpg.World.Returns.{Returns, returns, bind, weaken}
use freeswitch_mod_cpg.Utils.Ip.{utils_ip_is_valid, utils_get_netmask}
use freeswitch_mod_cpg.Utils.Ip.Bound.{utils_get_netmask_range}
use freeswitch_mod_cpg.Module.{Hash, find_virtual_ip}
use freeswitch_mod_cpg.Config.{
  XmlVip, zeroed, addressed, go_on, is_some, frees_xml, Exit, next_vip, out, memory_error,
  params_loop, insert_vip, finish_vip, configure_vip, vips_loop, do_config,
}
use freeswitch_mod_cpg.Config.Profiles.{Filled, Fits, Same, profiles_loop-Filled}
use freeswitch_mod_cpg.Config.Registry.{
  IsConfigured, IsLoaded, find_virtual_ip-absent, IsLoaded-hash_insert,
}
use freeswitch_mod_cpg.Config.Params.{KeepsAll, params_loop-KeepsAll}

-- libc reads only the dotted notation, of at most 15 characters, as an address.
abbrev pub ReadsDotted : Env → Type 0
ReadsDotted env = (log : Log) (s : Bytes) → env.answer log (inet_pton s) ≡ pos 1 → length s ≤ 15

-- An element that fits: at most eight profiles, with names that fit their fields.
abbrev pub Loadable : XmlVip → Type 0
Loadable x = Fits x.profiles × (length x.profiles ≤ 8)

take_short : (n : ℕ) (s : Bytes) → length s ≤ n → take n s ≡ s
take_short zero [] h = refl
take_short zero (c ∷ s) h = absurd (omega arith)
take_short (suc n) [] h = refl
take_short (suc n) (c ∷ s) h = ap (◌∷◌ c) (take_short n s (omega arith))

Filled-zeroed : Filled 0 zeroed.config.profiles
Filled-zeroed = record { size = refl; names = tt; fit = tt; rest = ground arith }

module _ (env : Env) where
  -- A run that leaves the hash loaded, and the world but for its log as it was.
  abbrev Loads : World → Hash × Status × Exit → World → Type 0
  Loads w (hash, status, exit) w' = IsLoaded hash × Same w w'

  insert_vip-Loads :
      (hash : Hash) (v : VirtualIp) (w : World)
      → IsLoaded hash
      → All (λ e. e.0 ≢ v.config.address) hash
      → IsConfigured v
      → Returns (Loads w) (insert_vip env hash v w)
  insert_vip-Loads hash v w l absent c =
      elim (Bool-cases
        (is_success (status_of (env.answer w.log (core_hash_insert v.config.address))))) [
          | inl ok ↦ rw ok (returns (IsLoaded-hash_insert hash v l absent c, (refl, refl)))
          | inr failed ↦ rw failed (returns (l, (refl, refl)))
        ]

  finish_vip-Loads :
      (x : XmlVip) (hash : Hash) (netmask : Bytes) (r : Option Config) (w : World)
      → Loadable x
      → IsLoaded hash
      → All (λ e. e.0 ≢ x.address) hash
      → length x.address ≤ 15
      → KeepsAll (addressed x.address (utils_get_netmask env netmask)).config r
      → Returns (Loads w) (finish_vip env x hash r w)
  finish_vip-Loads x hash netmask none w fits l absent short k = returns (l, (refl, refl))
  finish_vip-Loads x hash netmask (some c) w fits l absent short k =
      let same : c.address ≡ x.address = k.address ∙ take_short 15 x.address short in
      let range = utils_get_netmask_range env netmask in
      bind
        (profiles_loop-Filled env x.profiles 0 c.profiles w (rw k.profiles Filled-zeroed)
          (omega (arith, fits.1)) fits.0)
        λ ps w1 (filled, (v, r)).
          weaken
            (insert_vip-Loads hash (record zeroed { config = record c { profiles = ps } }) w1 l
              (rw same absent)
              (record {
                fresh = refl;
                netmask_low = rw k.netmask range.0;
                netmask_high = rw k.netmask range.1;
                address = rw same short;
                device = k.device (omega arith);
                mac = k.mac (omega arith);
                profiles = filled;
              }))
            (λ q w2 (l', (v', r')). (l', (v' ∙ v, r' ∙ r)))

  module _ (dotted : ReadsDotted env) where
    utils_ip_is_valid-short :
        (s : Bytes) (w : World)
        → Returns (λ r w'. Same w w' × (r ≡ true → length s ≤ 15)) (utils_ip_is_valid env s w)
    unfolding utils_ip_is_valid
    utils_ip_is_valid-short s w = returns ((refl, refl), λ e. dotted w.log s (eqb_ℤ_sound _ _ e))

    configure_vip-Loads :
        (x : XmlVip) (hash : Hash) (status : Status) (w : World)
        → Loadable x
        → IsLoaded hash
        → Returns (Loads w) (configure_vip env x hash status w)
    unfolding configure_vip
    configure_vip-Loads x hash status w fits l =
        elim (Bool-cases (is_some (find_virtual_ip hash x.address))) [
          | inl there ↦ rw there (returns (l, (refl, refl)))
          | inr new ↦ rw new (
              bind (utils_ip_is_valid-short x.address w) λ valid w1 (same, short).
                elim (Bool-cases valid) [
                  | inl ok ↦ elim (Bool-cases (is_zero (env.answer w1.log core_alloc))) [
                    | inl full ↦ rw (ok, full) (returns (l, same))
                    | inr room ↦
                        rw (ok, room)
                          (allocated x hash w w1 _ fits l
                            (find_virtual_ip-absent hash x.address new) (short ok) same)
                  ]
                  | inr bad ↦ rw bad (returns (l, same))
                ])
        ]
      where
        allocated :
            (x : XmlVip) (hash : Hash) (w w1 w2 : World)
            → Loadable x
            → IsLoaded hash
            → All (λ e. e.0 ≢ x.address) hash
            → length x.address ≤ 15
            → Same w w2
            → Returns (Loads w) (
                (params_loop env x.params
                      (addressed x.address (utils_get_netmask env x.cidr_netmask)).config
                    >>= λ c. finish_vip env x hash c)
                  w2)
        allocated x hash w w1 w2 fits l absent short (v, r) =
            bind
              (params_loop-KeepsAll env x.params
                (addressed x.address (utils_get_netmask env x.cidr_netmask)).config w2)
              λ c w3 (k, (v', r')).
                weaken (finish_vip-Loads x hash x.cidr_netmask c w3 fits l absent short k)
                  (λ q w4 (l', (v2, r2)). (l', (v2 ∙ v' ∙ v, r2 ∙ r' ∙ r)))

    go_on-Loads :
        (exit : Exit) (hash : Hash) (status : Status)
        (rest : Hash → Status → M (Hash × Status × Exit)) (w : World)
        → IsLoaded hash
        → Returns (Loads w) (rest hash status w)
        → Returns (Loads w) (go_on exit hash status rest w)
    go_on-Loads next_vip hash status rest w l r = r
    go_on-Loads out hash status rest w l r = returns (l, (refl, refl))
    go_on-Loads memory_error hash status rest w l r = returns (l, (refl, refl))

    vips_loop-Loads :
        (xs : List XmlVip) (hash : Hash) (status : Status) (w : World)
        → All Loadable xs
        → IsLoaded hash
        → Returns (Loads w) (vips_loop env xs hash status w)
    unfolding vips_loop
    vips_loop-Loads [] hash status w fits l = returns (l, (refl, refl))
    vips_loop-Loads (x ∷ xs) hash status w fits l =
        bind (configure_vip-Loads x hash status w fits.0 l) λ r w1 (l', (v, q)).
          weaken
            (go_on-Loads r.2 r.0 r.1 (vips_loop env xs) w1 l'
              (vips_loop-Loads xs r.0 r.1 w1 fits.1 l'))
            (λ r' w2 (l2, (v', q')). (l2, (v' ∙ v, q' ∙ q)))

    pub do_config-IsLoaded :
        (cfg : List XmlVip) (cf : Bytes) (hash : Hash) (w : World)
        → All Loadable cfg
        → IsLoaded hash
        → Returns (λ r w'. IsLoaded r.0 × Same w w') (do_config env (some cfg) cf hash w)
    unfolding do_config
    do_config-IsLoaded cfg cf hash w fits l =
        bind (vips_loop-Loads cfg hash success _ fits l) λ r w1 (l', same).
          elim (Bool-cases (frees_xml r.2)) [
            | inl frees ↦ rw frees (returns (l', same))
            | inr keeps ↦ rw keeps (returns (l', same))
          ]
