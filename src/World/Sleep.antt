-- ===== src/World/Sleep.antt =====
-- While a thread sleeps, the others go on: `elsewhere` is what they make of the world.
use freeswitch_mod_cpg.Base.{ℕ, ◌∷◌}
use freeswitch_mod_cpg.World.{Env, World, M, entry, yield_us, done}

module _ (env : Env) (elsewhere : World → World) where
  -- The world after a sleep of this thread.
  abbrev pub slept : ℕ → World → World
  slept us w =
      elsewhere (record w { log = entry (yield_us us) (env.answer w.log (yield_us us)) ∷ w.log })

  -- `switch_yield`.
  abbrev pub sleep : ℕ → M (Unit {0})
  sleep us w = done tt (slept us w)
