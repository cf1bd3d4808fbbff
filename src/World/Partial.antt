-- ===== src/World/Partial.antt =====
-- Partial correctness of a run: if it returns, its result and final world satisfy a postcondition.
use freeswitch_mod_cpg.World.{World, Outcome, done, fault, hang, M, and_then}
use freeswitch_mod_cpg.World.Returns.{Returns, returns}

pub data IfReturns {A : Type 0} (P : A → World → Type 0) : Outcome A → Type 0 where
  returned : {a : A} {w : World} → P a w → IfReturns P (done a w)
  faulted : IfReturns P fault
  hung : IfReturns P hang

module _ {A : Type 0} {P : A → World → Type 0} where
  pub and_then-IfReturns :
      {B : Type 0} {Q : B → World → Type 0} {r : Outcome A} {k : A → M B}
      → IfReturns P r
      → ((a : A) (w : World) → P a w → IfReturns Q (k a w))
      → IfReturns Q (and_then r k)
  and_then-IfReturns (returned p) next = next _ _ p
  and_then-IfReturns faulted next = faulted
  and_then-IfReturns hung next = hung

  pub weaken_if :
      {Q : A → World → Type 0} {r : Outcome A}
      → IfReturns P r
      → ((a : A) (w : World) → P a w → Q a w)
      → IfReturns Q r
  weaken_if (returned p) f = returned (f _ _ p)
  weaken_if faulted f = faulted
  weaken_if hung f = hung

  -- A run that returns satisfies what it satisfies if it returns.
  pub also : {Q : A → World → Type 0} {r : Outcome A} → Returns Q r → IfReturns P r → Returns P r
  also (returns q) (returned p) = returns p

-- The same by cases, which computes.
abbrev pub Allows : {A : Type 0} → (A → World → Type 0) → Outcome A → Type 0
Allows P (done a w) = P a w
Allows P fault = Unit {0}
Allows P hang = Unit {0}

pub of_Allows : {A : Type 0} (P : A → World → Type 0) (r : Outcome A) → Allows P r → IfReturns P r
of_Allows P (done a w) h = returned h
of_Allows P fault h = faulted
of_Allows P hang h = hung
