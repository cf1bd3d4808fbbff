-- ===== src/Module/Api/Safety.antt =====
-- What the API command `cpg` of mod_cpg.c makes of the virtual ips.
use freeswitch_mod_cpg.Base.{
  ℕ, ℤ, is_zero, ◌≡◌, ◌⊎◌, refl, subst, inl, inr, Bool-cases, Option, none, some, List, [], ◌∷◌,
  Bytes, All, bytes_eq, codes, zstr, arith,
}
use freeswitch_mod_cpg.Types.{VirtualIp}
use freeswitch_mod_cpg.World.{Env, World, success, status_memerr, strdup}
use freeswitch_mod_cpg.World.Returns.{Returns, returns, bind}
use freeswitch_mod_cpg.Module.{Hash, find_virtual_ip, update_vip, command, cmd_vip}
use freeswitch_mod_cpg.Module.Arbiter.{Starts, Stops, IsState, Started-Starts, Stopped-Stops}
use freeswitch_mod_cpg.Module.Command.{
  Others, about_start, about_stop, find-update_self, find-update_ne,
}
use freeswitch_mod_cpg.Module.Api.{nothing, vip_command, run_command, cpg_function}

-- What a command does to one virtual ip: nothing, or what `start` or `stop` do.
abbrev pub Commanded : VirtualIp → VirtualIp → Type 0
Commanded v v' = (v' ≡ v) ⊎ (Starts v v' ⊎ Stops v v')

-- At most one virtual ip of the hash was commanded.
abbrev pub OneCommanded : Hash → Hash → Type 0
OneCommanded hash hash' =
    (hash' ≡ hash)
    ⊎ ((address : Bytes) × (v : VirtualIp) × (v' : VirtualIp) × (find_virtual_ip hash address
          ≡ some v)
        × (find_virtual_ip hash' address ≡ some v')
        × Commanded v v'
        × Others hash address hash')

find-IsState :
    (hash : Hash) (address : Bytes) (v : VirtualIp)
    → All (λ e. IsState e.1) hash
    → find_virtual_ip hash address ≡ some v
    → IsState v
unfolding find_virtual_ip
find-IsState [] address v i h = absurd (ground arith)
find-IsState ((key, old) ∷ hash) address v i h = elim (Bool-cases (bytes_eq key address)) [
  | inl hit ↦ let k = rw hit at h in let e : old ≡ v = cc in subst IsState e i.0
  | inr miss ↦ find-IsState hash address v i.1 (rw miss at h)
]

module _ (env : Env) (strcasecmp : Bytes → Bytes → ℤ) where
  command-Commanded :
      (v : VirtualIp) (word : Bytes) (w : World)
      → IsState v
      → Returns (λ r w'. Commanded v r.1) (command env strcasecmp v word w)
  command-Commanded v word w i = elim (Bool-cases (is_zero (strcasecmp word (codes "start")))) [
    | inl start ↦
        rw start
          (bind (about_start env v w) λ p w1 k. returns (inr (inl (Started-Starts p.0 v p.1 k))))
    | inr other ↦ elim (Bool-cases (is_zero (strcasecmp word (codes "stop")))) [
      | inl stop ↦
          rw (other, stop)
            (bind (about_stop env v w i) λ p w1 k. returns (inr (inr (Stopped-Stops p.0 v p.1 k))))
      | inr neither ↦ rw (other, neither) (returns (inl refl))
    ]
  ]

  one_commanded :
      (hash : Hash) (address : Bytes) (v v' : VirtualIp)
      → find_virtual_ip hash address ≡ some v
      → Commanded v v'
      → OneCommanded hash (update_vip hash address v')
  one_commanded hash address v v' known c = inr (
    address,
    v,
    v',
    known,
    find-update_self hash address v' v known,
    c,
    λ other ne. find-update_ne hash address other v' ne,
  )

  cmd_vip-OneCommanded :
      (hash : Hash) (address : Bytes) (words : List Bytes) (w : World)
      → All (λ e. IsState e.1) hash
      → Returns (λ r w'. OneCommanded hash r.1) (cmd_vip env strcasecmp hash address words w)
  unfolding cmd_vip
  cmd_vip-OneCommanded hash address words w i = found (find_virtual_ip hash address) words refl
    where
      found :
          (r : Option VirtualIp) (words : List Bytes)
          → find_virtual_ip hash address ≡ r
          → Returns (λ r w'. OneCommanded hash r.1) (cmd_vip env strcasecmp hash address words w)
      found none words h = rw h (returns (inl refl))
      found (some v) [] h = rw h (returns (inl refl))
      found (some v) (word ∷ []) h = rw h (
          bind (command-Commanded v word w (find-IsState hash address v i h))
            λ r w1 k. returns (one_commanded hash address v r.1 h k))
      found (some v) (word ∷ other ∷ words) h = rw h (returns (inl refl))

  module _ (inet_ntoa : List ℕ → Bytes) where
    run_command-OneCommanded :
        (hash : Hash) (words : List Bytes) (w : World)
        → All (λ e. IsState e.1) hash
        → Returns
            (λ r w'. OneCommanded hash r.1)
            (run_command env strcasecmp inet_ntoa hash words w)
    run_command-OneCommanded hash [] w i = returns (inl refl)
    run_command-OneCommanded hash (word ∷ words) w i =
        elim (Bool-cases (is_zero (strcasecmp word (codes "status")))) [
          | inl is ↦ rw is (returns (inl refl))
          | inr no_status ↦ elim (Bool-cases (is_zero (strcasecmp word (codes "vip")))) [
            | inl is ↦ rw (no_status, is) (vip_command-OneCommanded hash words w i)
            | inr no_vip ↦ elim (Bool-cases (is_zero (strcasecmp word (codes "help")))) [
              | inl is ↦ rw (no_status, no_vip, is) (returns (inl refl))
              | inr not_is ↦ rw (no_status, no_vip, not_is) (returns (inl refl))
            ]
          ]
        ]
      where
        vip_command-OneCommanded :
            (hash : Hash) (words : List Bytes) (w : World)
            → All (λ e. IsState e.1) hash
            → Returns
                (λ r w'. OneCommanded hash r.1)
                (vip_command env strcasecmp inet_ntoa hash words w)
        vip_command-OneCommanded hash [] w i = returns (inl refl)
        vip_command-OneCommanded hash (address ∷ words) w i = elim (Bool-cases (zstr address)) [
          | inl empty ↦ rw empty (returns (inl refl))
          | inr full ↦
              rw full (bind (cmd_vip-OneCommanded hash address words w i) λ r w1 k. returns k)
        ]

    -- The command `cpg` returns whatever its line and whatever its calls answer, for virtual ips in
    -- one of the five states. It succeeds, or it runs out of memory for its copy of the line, and
    -- then it writes nothing and the hash is unchanged. At most one virtual ip of the hash is
    -- commanded: it is started from IDLE, or it goes down, or it is unchanged; all others are found
    -- under their addresses as before.
    pub cpg_function-OneCommanded :
        (separate : Bytes → List Bytes) (hash : Hash) (cmd : Bytes) (w : World)
        → All (λ e. IsState e.1) hash
        → Returns
            (λ (status, output, hash') w'.
              ((status ≡ success)
                ⊎ ((status ≡ status_memerr) × (output ≡ nothing) × (hash' ≡ hash)))
              × OneCommanded hash hash')
            (cpg_function env strcasecmp inet_ntoa separate hash cmd w)
    unfolding cpg_function
    cpg_function-OneCommanded separate hash cmd w i = elim (Bool-cases (zstr cmd)) [
      | inl empty ↦ rw empty (returns (inl refl, inl refl))
      | inr full ↦ elim (Bool-cases (is_zero (env.answer w.log (strdup cmd)))) [
        | inl none_left ↦ rw (full, none_left) (returns (inr (refl, refl, refl), inl refl))
        | inr copied ↦
            rw (full, copied)
              (bind (run_command-OneCommanded hash (separate cmd) _ i)
                λ r w1 k. returns (inl refl, k))
      ]
    ]
