-- ===== src/Rollback.antt =====
-- cpg_virtual_ip.c: the thread that gives the address back to a node of higher priority, some
-- minutes after it has come. While the thread sleeps, the others go on: `elsewhere` is what they
-- make of the world in the meantime.
use freeswitch_mod_cpg.Base.{
  ℕ, zero, suc, ◌+◌, ◌*◌, ◌^◌, ltb, leb, Option, none, some, ap, ◌<◌, ℤ, pos, negsuc, ◌≡◌, ◌≢◌, ◌⊎◌,
  ◌∙◌, sym, refl, inl, inr, Bool, true, false, Bool-cases, if◌then◌else◌, arith,
}
use freeswitch_mod_cpg.Types.{State, rback, is_rback, max_states}
use freeswitch_mod_cpg.World.{Env, World, M, Status, ◌>>=◌, ◌>>◌, pure, gets, hang}
use freeswitch_mod_cpg.World.Sleep.{slept, sleep}
use freeswitch_mod_cpg.World.Returns.{Returns, returns, bind, weaken}
use freeswitch_mod_cpg.Callbacks.{present}
use freeswitch_mod_cpg.Input.{fsm_input_cmd_start, fsm_input_cmd_stop}
use freeswitch_mod_cpg.Module.{virtual_ip_start, virtual_ip_stop}
use freeswitch_mod_cpg.Module.Arbiter.{
  IsState, Stopped, Started, virtual_ip_start-Started, virtual_ip_stop-Stopped,
}

-- `rollback_delay * 60`, where the product fits an int; a negative one lets the loop make no round.
unfoldable pub rounds : ℤ → Option ℕ
rounds (pos minutes) = if ltb (minutes * 60) (2 ^ 31) then some (minutes * 60) else none
rounds (negsuc n) = if leb ((n + 1) * 60) (2 ^ 31) then some 0 else none

rounds_lt : (delay : ℤ) (limit : ℕ) → rounds delay ≡ some limit → limit < 2 ^ 31
unfolding rounds
rounds_lt (pos minutes) limit e = ground arith
rounds_lt (negsuc n) limit e = ground arith

module _ (env : Env) (elsewhere : World → World) where
  -- The loop from `i` on, which reads the delay again in every round; a product that overflows is a
  -- fault. `false` at the label `stop_rollback`. The loop hangs where the fuel runs out.
  unfoldable pub timer_loop : ℕ → ℕ → M Bool
  unfolding rounds
  timer_loop zero i = λ w. hang
  timer_loop (suc fuel) i = do
    delay ← gets (λ v. v.config.rollback_delay)
    limit ← present (rounds delay)
    let rest = timer_loop fuel (i + 1)
    if ltb i limit
        then (do
          sleep env elsewhere 1000000
          state ← gets (λ v. v.state)
          if is_rback state then rest else pure false)
        else pure true

  -- The thread, with fuel for its loop.
  unfoldable pub rollback_within : ℕ → M (Unit {0})
  unfolding timer_loop
  rollback_within fuel = do
    expired ← timer_loop fuel 0
    if expired
        then (do
          fsm_input_cmd_stop env
          sleep env elsewhere 1000000
          fsm_input_cmd_start env
          pure tt)
        else pure tt

  -- No int lets the loop make as many rounds as this.
  unfoldable pub rollback_thread : M (Unit {0})
  rollback_thread = rollback_within (2 ^ 31)

  -- The world after so many seconds.
  abbrev pub waited : ℕ → World → World
  waited zero w = w
  waited (suc k) w = waited k (slept env elsewhere 1000000 w)

  -- The state is ROLLBACK at the end of each of the first seconds.
  abbrev pub Stays : ℕ → World → Type 0
  Stays zero w = Unit {0}
  Stays (suc k) w =
      ((slept env elsewhere 1000000 w).vip.state ≡ rback) × Stays k (slept env elsewhere 1000000 w)

  -- The state was left within the time, and nothing has been done.
  abbrev pub Cancelled : ℕ → World → World → Type 0
  Cancelled n w w' =
      (k : ℕ) × (k < n) × Stays k w × (w' ≡ waited (suc k) w) × (w'.vip.state ≢ rback)

  -- The other threads leave the delay as it is.
  abbrev pub KeepsDelay : Type 0
  KeepsDelay = (w : World) → (elsewhere w).vip.config.rollback_delay ≡ w.vip.config.rollback_delay

  -- The time is over: the virtual ip has been stopped, and started a second later.
  abbrev pub RolledBack : ℕ → World → World → Type 0
  RolledBack n w w' =
      Stays n w
      × ((r : Status) × (w1 : World) × (r' : Status) × Stopped r (waited n w).vip w1.vip
          × Started r' (slept env elsewhere 1000000 w1).vip w'.vip)

  timer_loop-Stays :
      (left fuel i limit : ℕ) (w : World)
      → KeepsDelay
      → rounds w.vip.config.rollback_delay ≡ some limit
      → i + left ≡ limit
      → left < fuel
      → Returns
          (λ expired w'.
            ((expired ≡ true) × Stays left w × (w' ≡ waited left w))
            ⊎ ((expired ≡ false) × Cancelled left w w'))
          (timer_loop fuel i w)
  unfolding timer_loop
  timer_loop-Stays left zero i limit w keeps fits count enough = absurd (omega arith)
  timer_loop-Stays zero (suc fuel) i limit w keeps fits count enough =
      let over : ltb i limit ≡ false = ground arith in
      rw (fits, over) (returns (inl (refl, tt, refl)))
  timer_loop-Stays (suc left) (suc fuel) i limit w keeps fits count enough =
      let on : ltb i limit ≡ true = ground arith in
      elim (Bool-cases (is_rback (slept env elsewhere 1000000 w).vip.state)) [
        | inl still ↦
            rw (fits, on, still)
              (weaken
                (timer_loop-Stays left fuel (i + 1) limit (slept env elsewhere 1000000 w) keeps
                  (ap rounds (keeps _) ∙ fits) (omega arith) (omega arith))
                (λ expired w' k. later w w' left expired (is_rback_sound _ still) k))
        | inr gone ↦
            rw (fits, on, gone)
              (returns (inr (refl, (0, omega arith, tt, refl, is_rback_ne _ gone))))
      ]
    where
      is_rback_sound : (s : State) → is_rback s ≡ true → s ≡ rback
      is_rback_sound s h = ground arith

      is_rback_ne : (s : State) → is_rback s ≡ false → s ≢ rback
      is_rback_ne s h = ground arith

      later :
          (w w' : World) (n : ℕ) (expired : Bool)
          → (slept env elsewhere 1000000 w).vip.state ≡ rback
          → (((expired ≡ true)
                × Stays n (slept env elsewhere 1000000 w)
                × (w' ≡ waited n (slept env elsewhere 1000000 w)))
              ⊎ ((expired ≡ false) × Cancelled n (slept env elsewhere 1000000 w) w'))
          → ((expired ≡ true) × Stays (suc n) w × (w' ≡ waited (suc n) w))
            ⊎ ((expired ≡ false) × Cancelled (suc n) w w')
      later w w' n expired e (inl (x, s, f)) = inl (x, (e, s), f)
      later w w' n expired e (inr (x, (k, lt, s, f, g))) =
          inr (x, (suc k, omega arith, (e, s), f, g))

  waited-IsState : (n : ℕ) (w : World) → Stays n w → IsState w.vip → IsState (waited n w).vip
  waited-IsState zero w s i = i
  waited-IsState (suc n) w s i =
      waited-IsState n (slept env elsewhere 1000000 w) s.1 (λ e. rback_ne (sym s.0 ∙ e))
    where
      rback_ne : rback ≡ max_states → ⊥
      rback_ne e = cc

  stop_again :
      (w : World)
      → IsState w.vip
      → Returns (λ r w'. Stopped r w.vip w'.vip) (fsm_input_cmd_stop env w)
  unfolding virtual_ip_stop
  stop_again w i = virtual_ip_stop-Stopped env w i

  start_again : (w : World) → Returns (λ r w'. Started r w.vip w'.vip) (fsm_input_cmd_start env w)
  unfolding virtual_ip_start
  start_again w = virtual_ip_start-Started env w

  -- How the thread ends, with any fuel above the limit of the loop.
  rollback_within-RolledBack :
      (fuel limit : ℕ) (w : World)
      → KeepsDelay
      → rounds w.vip.config.rollback_delay ≡ some limit
      → limit < fuel
      → IsState w.vip
      → Returns (λ u w'. Cancelled limit w w' ⊎ RolledBack limit w w') (rollback_within fuel w)
  unfolding rollback_within
  rollback_within-RolledBack fuel limit w keeps fits enough i =
      bind (timer_loop-Stays limit fuel 0 limit w keeps fits (omega arith) enough) λ expired w1 k.
        elim k [
          | inl (x, s, f) ↦
              rw (x, f)
                (bind (stop_again (waited limit w) (waited-IsState limit w s i)) λ r w2 stopped.
                  bind (start_again (slept env elsewhere 1000000 w2))
                    λ r' w3 started. returns (inr (s, (r, w2, r', stopped, started))))
          | inr (x, cancelled) ↦ rw x (returns (inl cancelled))
        ]

  -- The rollback thread of a virtual ip in one of the five states returns, whatever its calls
  -- answer and whatever else the other threads do while it sleeps, where `rollback_delay * 60` fits
  -- an int and the other threads leave that delay as it is. With a limit of so many seconds, and of
  -- none for a negative delay: either the state was not ROLLBACK at the end of one of the seconds up
  -- to the limit, and from then on nothing has been done; or it was ROLLBACK at the end of each of
  -- them, and the virtual ip has then been stopped, and started again after one more second.
  pub rollback_thread-RolledBack :
      (limit : ℕ) (w : World)
      → KeepsDelay
      → rounds w.vip.config.rollback_delay ≡ some limit
      → IsState w.vip
      → Returns (λ u w'. Cancelled limit w w' ⊎ RolledBack limit w w') (rollback_thread w)
  unfolding rollback_thread
  rollback_thread-RolledBack limit w keeps fits i =
      rollback_within-RolledBack (2 ^ 31) limit w keeps fits
        (rounds_lt w.vip.config.rollback_delay limit fits) i
