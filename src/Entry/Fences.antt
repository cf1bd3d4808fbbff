-- ===== src/Entry/Fences.antt =====
-- The thread of the module in mod_cpg.c.
use freeswitch_mod_cpg.Base.{
  ℕ, zero, suc, ℤ, ◌≡◌, ◌⊎◌, refl, ap, inl, inr, Bool, true, [], ◌∷◌, All,
}
use freeswitch_mod_cpg.Types.{VirtualIp}
use freeswitch_mod_cpg.World.{Env, World, status_term, system, done, entry, yield_us}
use freeswitch_mod_cpg.World.Returns.{Returns, returns, bind, weaken, invert}
use freeswitch_mod_cpg.Module.{Hash, runtime_round}
use freeswitch_mod_cpg.Module.Arbiter.{
  Stops, AutoStarts, Arbitrated, IsState, runtime_round-Arbitrated, arbiter,
}
use freeswitch_mod_cpg.Entry.{runtime_loop, mod_cpg_runtime}
use freeswitch_mod_cpg.Entry.Load.{IsIdle, All-Pointwise}

-- What the other threads leave of a hash of virtual ips in one of the five states.
abbrev pub KeepsStates : (Hash → Hash) → Type 0
KeepsStates elsewhere =
    (hash : Hash) → All (λ e. IsState e.1) hash → All (λ e. IsState e.1) (elsewhere hash)

-- What a round leaves: virtual ips in one of the five states, all of them IDLE where the node is
-- cut off.
abbrev pub Fenced : Hash → Bool → Type 0
Fenced hash is_connected =
    All (λ e. IsState e.1) hash × ((is_connected ≡ true) ⊎ All (λ e. IsIdle e.1) hash)

Stops-IsIdle : (v v' : VirtualIp) → IsState v → Stops v v' → IsIdle v'
Stops-IsIdle v v' i (inl (h, e)) = rw e h
Stops-IsIdle v v' i (inr (h, e)) = ap (λ u. u.state) e

IsIdle-IsState : (v : VirtualIp) → IsIdle v → IsState v
IsIdle-IsState v i e = cc

AutoStarts-IsState : (v v' : VirtualIp) → IsState v → AutoStarts v v' → IsState v'
AutoStarts-IsState v v' i (inl (auto, inl (h, (thread, e)))) m = let s = ap (λ u. u.state) e in cc
AutoStarts-IsState v v' i (inl (auto, inr (h, e))) m = i (rw e at m)
AutoStarts-IsState v v' i (inr (auto, e)) m = i (rw e at m)

All-weaken :
    (P Q : VirtualIp → Type 0)
    → ((v : VirtualIp) → P v → Q v)
    → (hash : Hash) → All (λ e. P e.1) hash
    → All (λ e. Q e.1) hash
All-weaken P Q f [] p = tt
All-weaken P Q f (e ∷ hash) p = (f e.1 p.0, All-weaken P Q f hash p.1)

Arbitrated-Fenced :
    (failed : ℤ) (hash : Hash) (is_connected : Bool) (r : Hash × Bool)
    → All (λ e. IsState e.1) hash
    → Arbitrated failed hash is_connected r
    → Fenced r.0 r.1
Arbitrated-Fenced failed hash c r states (inl (f, n, s)) =
    let idles = All-Pointwise IsState IsIdle Stops Stops-IsIdle hash r.0 states s in
    (All-weaken IsIdle IsState IsIdle-IsState r.0 idles, inr idles)
Arbitrated-Fenced failed hash c r states (inr (inl (ok, n, was, e))) = (rw e states, inl n)
Arbitrated-Fenced failed hash c r states (inr (inr (ok, n, was, s))) =
    (All-Pointwise IsState IsState AutoStarts AutoStarts-IsState hash r.0 states s, inl n)

module _ (env : Env) (elsewhere : Hash → Hash) where
  -- What a run of the loop is: so many rounds one after another, each by what the arbiter script
  -- exits with in it, with the other threads at work on the hash between them. Where a round leaves
  -- the node cut off, every virtual ip is IDLE after it.
  unfoldable pub Rounds : ℕ → Hash → Bool → World → Hash × Bool → World → Type 0
  Rounds zero hash is_connected w r w' = (r ≡ (hash, is_connected)) × (w' ≡ w)
  Rounds (suc rounds) hash is_connected w r w' =
      (left : Hash) × (connected : Bool) × (w1 : World) × (runtime_round env hash is_connected w
        ≡ done (left, connected) w1)
      × Arbitrated (env.answer w.log (system (arbiter env))) hash is_connected (left, connected)
      × ((connected ≡ true) ⊎ All (λ e. IsIdle e.1) left)
      × Rounds rounds (elsewhere left) connected (rested w1) r w'
    where
      rested : World → World
      rested w1 = record w1 {
        log = entry (yield_us 5000000) (env.answer w1.log (yield_us 5000000)) ∷ w1.log;
      }

  module _ (keeps : KeepsStates elsewhere) where
    runtime_loop-Rounds :
        (rounds : ℕ) (hash : Hash) (is_connected : Bool) (w : World)
        → All (λ e. IsState e.1) hash
        → Returns
            (Rounds rounds hash is_connected w)
            (runtime_loop env elsewhere rounds hash is_connected w)
    unfolding runtime_loop Rounds
    runtime_loop-Rounds zero hash c w states = returns (refl, refl)
    runtime_loop-Rounds (suc rounds) hash c w states =
        let (r, w1, run, k) = invert (runtime_round-Arbitrated env hash c w states) in
        let f = Arbitrated-Fenced (env.answer w.log (system (arbiter env))) hash c r states k in
        rw run (
          weaken (runtime_loop-Rounds rounds (elsewhere r.0) r.1 _ (keeps r.0 f.0))
            (λ r' w2 m. (r.0, r.1, w1, run, k, f.1, m)))

    -- The thread of the module ends with SWITCH_STATUS_TERM after as many rounds as the module keeps
    -- running, and whatever its calls answer, for virtual ips in one of the five states that the
    -- other threads keep in these. It starts as connected. In each round, where the arbiter script
    -- fails, every virtual ip is stopped, so that all are IDLE, and the node counts as cut off; where
    -- it succeeds again, the idle ones with `autoload` are started; where it goes on succeeding,
    -- nothing changes; the node counts as connected then. Each round finds what the other threads
    -- make of the hash that the one before has left, and the thread ends with what they make of that
    -- of the last round.
    pub mod_cpg_runtime-Fenced :
        (rounds : ℕ) (hash : Hash) (w : World)
        → All (λ e. IsState e.1) hash
        → Returns
            (λ (status, left, connected) w'.
              (status ≡ status_term) × Rounds rounds hash true w (left, connected) w')
            (mod_cpg_runtime env elsewhere rounds hash w)
    unfolding mod_cpg_runtime
    mod_cpg_runtime-Fenced rounds hash w states =
        bind (runtime_loop-Rounds rounds hash true w states) λ r w1 k. returns (refl, k)
