-- ===== src/Tests/Threads.antt =====
-- The theorem on the rollback thread, where nothing else happens while it sleeps.
use freeswitch_mod_cpg.Base.{pos, ◌⊎◌, ◌≡◌, refl, some, []}
use freeswitch_mod_cpg.Types.{rback}
use freeswitch_mod_cpg.World.{World}
use freeswitch_mod_cpg.World.Returns.{Returns}
use freeswitch_mod_cpg.Rollback.{
  rounds, Cancelled, RolledBack, rollback_thread, rollback_thread-RolledBack,
}
use freeswitch_mod_cpg.Tests.{calm, world, two}

abbrev yielding : World
yielding = world rback two []

abbrev nothing_else : World → World
nothing_else w = w

one_minute : rounds (pos 1) ≡ some 60
unfolding rounds
one_minute = refl

rollback_thread-RolledBack_example :
    Returns
      (λ u w'.
        Cancelled calm nothing_else 60 yielding w' ⊎ RolledBack calm nothing_else 60 yielding w')
      (rollback_thread calm nothing_else yielding)
rollback_thread-RolledBack_example =
    rollback_thread-RolledBack calm nothing_else 60 yielding (λ w. refl) one_minute (λ e. cc)
