-- ===== src/Module/Command.antt =====
-- mod_cpg.c: the command `cpg vip`.
use freeswitch_mod_cpg.Base.{
  ℕ, ℤ, is_zero, ◌≡◌, ◌≢◌, ◌⊎◌, ◌∙◌, refl, sym, inl, inr, true, false, Bool-cases, some, [], ◌∷◌,
  Bytes, bytes_eq, bytes_eq_sound, bytes_eq_apart, codes, if◌then◌else◌,
}
use freeswitch_mod_cpg.Types.{VirtualIp, idle}
use freeswitch_mod_cpg.World.{Env, World, Status, is_success}
use freeswitch_mod_cpg.World.Returns.{Returns, returns, bind}
use freeswitch_mod_cpg.Fsm.Down.{down}
use freeswitch_mod_cpg.Module.{
  Hash, Reply, about, virtual_ip_start, virtual_ip_stop, starting, already_running, stopping,
  not_running, find_virtual_ip, update_vip, cmd_vip,
}
use freeswitch_mod_cpg.Module.Arbiter.{
  started, IsState, Started, Stopped, virtual_ip_start-Started, virtual_ip_stop-Stopped,
}

pub find-update_self :
    (hash : Hash) (address : Bytes) (v old : VirtualIp)
    → find_virtual_ip hash address ≡ some old
    → find_virtual_ip (update_vip hash address v) address ≡ some v
unfolding find_virtual_ip update_vip
find-update_self [] address v old h = cc
find-update_self ((key, q) ∷ hash) address v old h = elim (Bool-cases (bytes_eq key address)) [
  | inl hit ↦ rw (hit, hit) refl
  | inr miss ↦ rw (miss, miss) (find-update_self hash address v old (rw miss at h))
]

pub find-update_ne :
    (hash : Hash) (address other : Bytes) (v : VirtualIp)
    → address ≢ other
    → find_virtual_ip (update_vip hash address v) other ≡ find_virtual_ip hash other
unfolding find_virtual_ip update_vip
find-update_ne [] address other v ne = refl
find-update_ne ((key, q) ∷ hash) address other v ne = elim (Bool-cases (bytes_eq key address)) [
  | inl hit ↦
      let same = bytes_eq_sound key address hit in
      let apart = bytes_eq_apart key other (λ e. ne (sym same ∙ e)) in rw (hit, apart) refl
  | inr miss ↦ elim (Bool-cases (bytes_eq key other)) [
    | inl found ↦ rw (miss, found) refl
    | inr not_found ↦ rw (miss, not_found) (find-update_ne hash address other v ne)
  ]
]

-- The other virtual ips of the hash are found as before.
abbrev pub Others : Hash → Bytes → Hash → Type 0
Others hash address hash' =
    (other : Bytes) → address ≢ other → find_virtual_ip hash' other ≡ find_virtual_ip hash other

-- What `start` makes of a virtual ip, with the reply.
abbrev pub StartReply : VirtualIp → Reply → VirtualIp → Type 0
StartReply v reply v' =
    ((reply ≡ starting) × (v.state ≡ idle) × ((thread : ℕ) × (v' ≡ started v thread)))
    ⊎ ((reply ≡ already_running) × (v.state ≢ idle) × (v' ≡ v))

abbrev pub StopReply : VirtualIp → Reply → VirtualIp → Type 0
StopReply v reply v' =
    ((reply ≡ stopping) × (v.state ≢ idle) × (v' ≡ down v))
    ⊎ ((reply ≡ not_running) × (v.state ≡ idle) × (v' ≡ v))

-- The hash has one virtual ip changed.
abbrev pub Changes : (Reply → VirtualIp → Type 0) → Hash → Bytes → Reply × Hash → World → Type 0
Changes R hash address (reply, hash') w' =
    Others hash address hash'
    × ((v' : VirtualIp) × (find_virtual_ip hash' address ≡ some v') × R reply v')

pub about_start :
    (env : Env) (v : VirtualIp) (w : World)
    → Returns (λ p w'. Started p.0 v p.1) (about v (virtual_ip_start env) w)
about_start env v w = bind (virtual_ip_start-Started env (record w { vip = v })) λ r w1 k. returns k

pub about_stop :
    (env : Env) (v : VirtualIp) (w : World)
    → IsState v
    → Returns (λ p w'. Stopped p.0 v p.1) (about v (virtual_ip_stop env) w)
about_stop env v w i =
    bind (virtual_ip_stop-Stopped env (record w { vip = v }) i) λ r w1 k. returns k

start_reply :
    (v : VirtualIp) (r : Status) (v' : VirtualIp)
    → Started r v v'
    → StartReply v (if is_success r then starting else already_running) v'
start_reply v r v' (inl (e, h, k)) = rw e (inl (refl, h, k))
start_reply v r v' (inr (e, h, k)) = rw e (inr (refl, h, k))

stop_reply :
    (v : VirtualIp) (r : Status) (v' : VirtualIp)
    → Stopped r v v'
    → StopReply v (if is_success r then stopping else not_running) v'
stop_reply v r v' (inl (e, h, k)) = rw e (inr (refl, h, k))
stop_reply v r v' (inr (e, h, k)) = rw e (inl (refl, h, k))

module _ (env : Env) (strcasecmp : Bytes → Bytes → ℤ) (hash : Hash) (address word : Bytes)
    (v : VirtualIp) (w : World) (known : find_virtual_ip hash address ≡ some v) where
  stored :
      (R : Reply → VirtualIp → Type 0) (reply : Reply) (v' : VirtualIp) (w' : World)
      → R reply v'
      → Changes R hash address (reply, update_vip hash address v') w'
  stored R reply v' w' h = (
    (λ other ne. find-update_ne hash address other v' ne),
    (v', find-update_self hash address v' v known, h),
  )

  -- `cpg vip ADDRESS start`, for an address in the hash, returns whatever its calls answer: an idle
  -- virtual ip is started, and the reply says so; one that is not idle is unchanged, and the reply
  -- says that it is running. The virtual ips of other addresses are unchanged.
  pub cmd_vip-StartReply :
      is_zero (strcasecmp word (codes "start")) ≡ true
      → Returns
          (Changes (StartReply v) hash address)
          (cmd_vip env strcasecmp hash address (word ∷ []) w)
  unfolding cmd_vip
  cmd_vip-StartReply is_start =
      rw (known, is_start)
        (bind {P = λ r w'. StartReply v r.0 r.1}
          (bind (about_start env v w) λ p w1 k. returns (start_reply v p.0 p.1 k))
          λ r w1 k. returns (stored (StartReply v) r.0 r.1 w1 k))

  -- `cpg vip ADDRESS stop`, for an address in the hash whose virtual ip is in one of the five
  -- states, returns whatever its calls answer: a virtual ip that is not idle goes down, and the
  -- reply says so; an idle one is unchanged, and the reply says that it is not running. The virtual
  -- ips of other addresses are unchanged.
  pub cmd_vip-StopReply :
      is_zero (strcasecmp word (codes "start")) ≡ false
      → is_zero (strcasecmp word (codes "stop")) ≡ true
      → IsState v
      → Returns
          (Changes (StopReply v) hash address)
          (cmd_vip env strcasecmp hash address (word ∷ []) w)
  unfolding cmd_vip
  cmd_vip-StopReply no_start is_stop i =
      rw (known, no_start, is_stop)
        (bind {P = λ r w'. StopReply v r.0 r.1}
          (bind (about_stop env v w i) λ p w1 k. returns (stop_reply v p.0 p.1 k))
          λ r w1 k. returns (stored (StopReply v) r.0 r.1 w1 k))
