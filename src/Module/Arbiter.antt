-- ===== src/Module/Arbiter.antt =====
-- mod_cpg.c: what a round of the runtime thread makes of the virtual ips.
use freeswitch_mod_cpg.Base.{
  ℕ, ℤ, is_zero, ◌≡◌, ◌≢◌, ◌⊎◌, refl, inl, inr, Bool, true, false, [], ◌∷◌, Bytes, All, Bool-cases,
  codes, snprintf, ◌++◌,
}
use freeswitch_mod_cpg.Types.{startup, stop, State, idle, start, max_states, VirtualIp}
use freeswitch_mod_cpg.World.{Env, World, M, Status, success, status_false, system}
use freeswitch_mod_cpg.World.Returns.{Returns, returns, bind, weaken}
use freeswitch_mod_cpg.Fsm.{fsm_do_transaction, table, error, go_up}
use freeswitch_mod_cpg.Fsm.Down.{down, go_down-down}
use freeswitch_mod_cpg.Input.{fsm_input_cmd_start, fsm_input_cmd_stop}
use freeswitch_mod_cpg.Module.{
  Hash, about, map_vip, virtual_ip_start, virtual_ip_stop, autostart_vip, runtime_round,
}

-- A relation between the virtual ips of the same keys.
abbrev pub Pointwise : (VirtualIp → VirtualIp → Type 0) → Hash → Hash → Type 0
Pointwise R [] [] = Unit {0}
Pointwise R ((key, v) ∷ hash) ((key', v') ∷ hash') = (key ≡ key') × R v v' × Pointwise R hash hash'
Pointwise R _ _ = ⊥

-- An idle virtual ip stays as it is, and any other goes down.
abbrev pub Stops : VirtualIp → VirtualIp → Type 0
Stops v v' = ((v.state ≡ idle) × (v' ≡ v)) ⊎ ((v.state ≢ idle) × (v' ≡ down v))

abbrev pub started : VirtualIp → ℕ → VirtualIp
started v thread = record v { state = start; virtual_ip_thread = thread }

-- An idle virtual ip is started.
abbrev pub Starts : VirtualIp → VirtualIp → Type 0
Starts v v' =
    ((v.state ≡ idle) × ((thread : ℕ) × (v' ≡ started v thread))) ⊎ ((v.state ≢ idle) × (v' ≡ v))

-- It is started where it is to be loaded automatically.
abbrev pub AutoStarts : VirtualIp → VirtualIp → Type 0
AutoStarts v v' =
    ((v.config.autoload ≡ true) × Starts v v') ⊎ ((v.config.autoload ≡ false) × (v' ≡ v))

-- The same with the status that the code returns.
abbrev pub Stopped : Status → VirtualIp → VirtualIp → Type 0
Stopped r v v' =
    ((r ≡ status_false) × (v.state ≡ idle) × (v' ≡ v))
    ⊎ ((r ≡ success) × (v.state ≢ idle) × (v' ≡ down v))

abbrev pub Started : Status → VirtualIp → VirtualIp → Type 0
Started r v v' =
    ((r ≡ success) × (v.state ≡ idle) × ((thread : ℕ) × (v' ≡ started v thread)))
    ⊎ ((r ≡ status_false) × (v.state ≢ idle) × (v' ≡ v))

pub Stopped-Stops : (r : Status) (v v' : VirtualIp) → Stopped r v v' → Stops v v'
Stopped-Stops r v v' (inl (e, h, k)) = inl (h, k)
Stopped-Stops r v v' (inr (e, h, k)) = inr (h, k)

pub Started-Starts : (r : Status) (v v' : VirtualIp) → Started r v v' → Starts v v'
Started-Starts r v v' (inl (e, h, k)) = inl (h, k)
Started-Starts r v v' (inr (e, h, k)) = inr (h, k)

abbrev pub IsState : VirtualIp → Type 0
IsState v = v.state ≢ max_states

module _ (env : Env) where
  stop-Stopped :
      (w : World) (s : State)
      → w.vip.state ≡ s
      → IsState w.vip
      → Returns (λ r w'. Stopped r w.vip w'.vip) (fsm_do_transaction env stop w)
  unfolding fsm_do_transaction table error
  stop-Stopped w idle h i = simp h (returns (inl (refl, refl, refl)))
  stop-Stopped w max_states h i = absurd (i h)
  stop-Stopped w s h i = simp h (weaken (go_down-down env w) (λ r w' k. inr (k.0, (λ e. cc), k.1)))

  pub virtual_ip_stop-Stopped :
      (w : World) → IsState w.vip → Returns (λ r w'. Stopped r w.vip w'.vip) (virtual_ip_stop env w)
  unfolding virtual_ip_stop fsm_input_cmd_stop
  virtual_ip_stop-Stopped w i = stop-Stopped w w.vip.state refl i

  startup-Started :
      (w : World) (s : State)
      → w.vip.state ≡ s
      → Returns (λ r w'. Started r w.vip w'.vip) (fsm_do_transaction env startup w)
  unfolding fsm_do_transaction table error go_up
  startup-Started w idle h = simp h (returns (inl (refl, refl, (_, refl))))
  startup-Started w s h = simp h (returns (inr (refl, (λ e. cc), refl)))

  pub virtual_ip_start-Started :
      (w : World) → Returns (λ r w'. Started r w.vip w'.vip) (virtual_ip_start env w)
  unfolding virtual_ip_start fsm_input_cmd_start
  virtual_ip_start-Started w = startup-Started w w.vip.state refl

  pub autostart_vip-AutoStarts :
      (w : World) → Returns (λ r w'. AutoStarts w.vip w'.vip) (autostart_vip env w)
  unfolding autostart_vip
  autostart_vip-AutoStarts w = elim (Bool-cases w.vip.config.autoload) [
    | inl wanted ↦ simp wanted (
        bind (virtual_ip_start-Started w)
          λ r w' k. returns (inl (refl, Started-Starts r w.vip w'.vip k)))
    | inr not_wanted ↦ simp not_wanted (returns (inr (refl, refl)))
  ]

about-R :
    (R : VirtualIp → VirtualIp → Type 0) (vip_func : M Status) (v : VirtualIp) (w : World)
    → Returns (λ r w'. R v w'.vip) (vip_func (record w { vip = v }))
    → Returns (λ r w'. R v r.1) (about v vip_func w)
about-R R vip_func v w f = bind f λ r w1 k. returns k

pub All-unit : (hash : Hash) → All (λ e. Unit {0}) hash
All-unit [] = tt
All-unit (e ∷ hash) = (tt, All-unit hash)

-- What a function does to the virtual ip that it is about, `map_vip` does to all of them.
pub map_vip-Pointwise :
    (P : VirtualIp → Type 0) (R : VirtualIp → VirtualIp → Type 0) (vip_func : M Status)
    → ((w : World) → P w.vip → Returns (λ r w'. R w.vip w'.vip) (vip_func w))
    → (hash : Hash) (w : World) → All (λ e. P e.1) hash
    → Returns (λ hash' w'. Pointwise R hash hash') (map_vip vip_func hash w)
unfolding map_vip
map_vip-Pointwise P R vip_func f [] w p = returns tt
map_vip-Pointwise P R vip_func f ((key, v) ∷ hash) w p =
    bind (about-R R vip_func v w (f (record w { vip = v }) p.0)) λ r w1 k.
      bind (map_vip-Pointwise P R vip_func f hash w1 p.1) λ hash' w2 ks. returns (refl, k, ks)

abbrev pub arbiter : Env → Bytes
arbiter env = snprintf 128 (env.base_dir ++ codes "/bin/arbiter.sh")

pub map_stop :
    (env : Env) (hash : Hash) (w : World)
    → All (λ e. IsState e.1) hash
    → Returns (λ hash' w'. Pointwise Stops hash hash') (map_vip (virtual_ip_stop env) hash w)
map_stop env hash w h =
    map_vip-Pointwise IsState Stops (virtual_ip_stop env)
      (λ w1 i.
        weaken (virtual_ip_stop-Stopped env w1 i) (λ r w' k. Stopped-Stops r w1.vip w'.vip k))
      hash w h

-- What a round makes of the virtual ips, by the exit status of the arbiter script.
abbrev pub Arbitrated : ℤ → Hash → Bool → Hash × Bool → Type 0
Arbitrated failed hash is_connected (hash', is_connected') =
    ((is_zero failed ≡ false) × (is_connected' ≡ false) × Pointwise Stops hash hash')
    ⊎ (((is_zero failed ≡ true) × (is_connected' ≡ true) × (is_connected ≡ true) × (hash' ≡ hash))
        ⊎ ((is_zero failed ≡ true)
            × (is_connected' ≡ true)
            × (is_connected ≡ false)
            × Pointwise AutoStarts hash hash'))

-- A round of the runtime thread returns, whatever its calls answer, for virtual ips in one of the
-- five states. Where the arbiter script fails, every virtual ip is IDLE afterwards: it was idle and
-- is unchanged, or it has gone down. Where it succeeds again after a failure, just the idle ones
-- with `autoload` are started; and where it goes on succeeding, nothing changes. The flag
-- `is_connected` records the outcome.
pub runtime_round-Arbitrated :
    (env : Env) (hash : Hash) (is_connected : Bool) (w : World)
    → All (λ e. IsState e.1) hash
    → Returns
        (λ r w'. Arbitrated (env.answer w.log (system (arbiter env))) hash is_connected r)
        (runtime_round env hash is_connected w)
unfolding runtime_round
runtime_round-Arbitrated env hash is_connected w h =
    elim (Bool-cases (is_zero (env.answer w.log (system (arbiter env))))) [
      | inl ok ↦ elim (Bool-cases is_connected) [
        | inl still ↦ rw (ok, still) (returns (inr (inl (refl, refl, refl, refl))))
        | inr again ↦
            rw (ok, again)
              (bind
                (map_vip-Pointwise (λ v. Unit {0}) AutoStarts (autostart_vip env)
                  (λ w1 p. autostart_vip-AutoStarts env w1) hash _ (All-unit hash))
                λ hash' w1 k. returns (inr (inr (refl, refl, refl, k))))
      ]
      | inr failed ↦
          rw failed (bind (map_stop env hash _ h) λ hash' w1 k. returns (inl (refl, refl, k)))
    ]
