-- ===== src/World/Returns.antt =====
-- Total correctness of a run: it neither faults nor hangs, and its result and final world satisfy
-- a postcondition.
use freeswitch_mod_cpg.Base.{◌≡◌, refl}
use freeswitch_mod_cpg.World.{World, Outcome, done, fault, hang, M, and_then}

pub data Returns {A : Type 0} (P : A → World → Type 0) : Outcome A → Type 0 where
  returns : {a : A} {w : World} → P a w → Returns P (done a w)

module _ {A : Type 0} {P : A → World → Type 0} where
  pub bind :
      {B : Type 0} {Q : B → World → Type 0} {r : Outcome A} {k : A → M B}
      → Returns P r
      → ((a : A) (w : World) → P a w → Returns Q (k a w))
      → Returns Q (and_then r k)
  bind (returns p) next = next _ _ p

  pub weaken :
      {Q : A → World → Type 0} {r : Outcome A}
      → Returns P r
      → ((a : A) (w : World) → P a w → Q a w)
      → Returns Q r
  weaken (returns p) f = returns (f _ _ p)

  pub invert : {r : Outcome A} → Returns P r → (a : A) × (w : World) × (r ≡ done a w) × P a w
  invert (returns {a} {w} p) = (a, w, refl, p)

-- The same by cases, which computes.
abbrev pub Ensures : {A : Type 0} → (A → World → Type 0) → Outcome A → Type 0
Ensures P (done a w) = P a w
Ensures P fault = ⊥
Ensures P hang = ⊥

pub of_Ensures : {A : Type 0} (P : A → World → Type 0) (r : Outcome A) → Ensures P r → Returns P r
of_Ensures P (done a w) h = returns h
of_Ensures P fault h = absurd h
of_Ensures P hang h = absurd h

pub to_Ensures : {A : Type 0} (P : A → World → Type 0) (r : Outcome A) → Returns P r → Ensures P r
to_Ensures P r (returns h) = h

-- What is shown of one run by two proofs holds together.
pub both :
    {A : Type 0} (P Q : A → World → Type 0) (r : Outcome A)
    → Returns P r
    → Returns Q r
    → Returns (λ a w. P a w × Q a w) r
both P Q (done a w) h k = of_Ensures _ _ (to_Ensures P _ h, to_Ensures Q _ k)
both P Q fault h k = absurd (to_Ensures P fault h)
both P Q hang h k = absurd (to_Ensures P hang h)
