-- ===== src/Base/Lists.antt =====
-- Lists measured by native numbers, under the library's names, and C strings as lists of bytes.
use Prim.Native.Nat.{ℕ, zero, suc, ◌+◌, ◌≤◌}
use mathlib.Core.Path.{◌≡◌, refl, ap}
use mathlib.Core.Logic.{◌≢◌}
use mathlib.Core.Bool.{Bool, true, false, ◌&&◌}
use mathlib.Core.List.{List, [], ◌∷◌, ◌++◌}
use mathlib.Core.Option.{Option, none, some}
use native.Mathlib.Nat.{zero-add, suc-add}
use native.Mathlib.Omega.{arith}
use freeswitch_mod_cpg.Base.Tests.{◌==◌}

-- A C string without its terminating NUL, or a buffer.
abbrev pub Bytes : Type 0
Bytes = List ℕ

module _ {ℓ} {A : Type ℓ} where
  abbrev pub length : List A → ℕ
  length [] = 0
  length (x ∷ xs) = suc (length xs)

  abbrev pub get_elem? : List A → ℕ → Option A
  get_elem? [] i = none
  get_elem? (x ∷ xs) zero = some x
  get_elem? (x ∷ xs) (suc i) = get_elem? xs i

  -- A write out of bounds changes nothing.
  abbrev pub set : List A → ℕ → A → List A
  set [] i v = []
  set (x ∷ xs) zero v = v ∷ xs
  set (x ∷ xs) (suc i) v = x ∷ set xs i v

  abbrev pub take : ℕ → List A → List A
  take zero xs = []
  take (suc n) [] = []
  take (suc n) (x ∷ xs) = x ∷ take n xs

  abbrev pub drop : ℕ → List A → List A
  drop zero xs = xs
  drop (suc n) [] = []
  drop (suc n) (x ∷ xs) = drop n xs

  abbrev pub replicate : ℕ → A → List A
  replicate zero a = []
  replicate (suc n) a = a ∷ replicate n a

  abbrev pub All {κ} : (A → Type κ) → List A → Type κ
  All P [] = Unit
  All P (x ∷ xs) = P x × All P xs

module _ {ℓ} {A : Type ℓ} where
  pub length-append : (xs ys : List A) → length (xs ++ ys) ≡ length xs + length ys
  length-append [] ys = omega arith
  length-append (x ∷ xs) ys = omega (arith, length-append xs ys)

  pub length-set : (xs : List A) (i : ℕ) (v : A) → length (set xs i v) ≡ length xs
  length-set [] i v = refl
  length-set (x ∷ xs) zero v = refl
  length-set (x ∷ xs) (suc i) v = ap suc (length-set xs i v)

  pub length-replicate : (n : ℕ) (a : A) → length (replicate n a) ≡ n
  length-replicate zero a = refl
  length-replicate (suc n) a = ap suc (length-replicate n a)

-- `strcmp (a, b) == 0`.
unfoldable pub bytes_eq : Bytes → Bytes → Bool
bytes_eq [] [] = true
bytes_eq [] (y ∷ ys) = false
bytes_eq (x ∷ xs) [] = false
bytes_eq (x ∷ xs) (y ∷ ys) = (x == y) && bytes_eq xs ys

pub bytes_eq_refl : (a : Bytes) → bytes_eq a a ≡ true
unfolding bytes_eq
bytes_eq_refl [] = refl
bytes_eq_refl (x ∷ xs) = ground (arith, bytes_eq_refl xs)

pub bytes_eq_sound : (a b : Bytes) → bytes_eq a b ≡ true → a ≡ b
unfolding bytes_eq
bytes_eq_sound [] [] h = refl
bytes_eq_sound [] (y ∷ ys) h = cc
bytes_eq_sound (x ∷ xs) [] h = cc
bytes_eq_sound (x ∷ xs) (y ∷ ys) h = ground (arith, bytes_eq_sound xs ys)

pub bytes_eq_ne : (a b : Bytes) → bytes_eq a b ≡ false → a ≢ b
unfolding bytes_eq
bytes_eq_ne [] [] h = cc
bytes_eq_ne [] (y ∷ ys) h = λ e. cc
bytes_eq_ne (x ∷ xs) [] h = λ e. cc
bytes_eq_ne (x ∷ xs) (y ∷ ys) h = ground (arith, bytes_eq_ne xs ys)

pub bytes_eq_apart : (a b : Bytes) → a ≢ b → bytes_eq a b ≡ false
unfolding bytes_eq
bytes_eq_apart [] [] h = absurd (h refl)
bytes_eq_apart [] (y ∷ ys) h = refl
bytes_eq_apart (x ∷ xs) [] h = refl
bytes_eq_apart (x ∷ xs) (y ∷ ys) h = ground (arith, bytes_eq_apart xs ys)

-- `memcpy (buf + n, src, …)`. What would fall behind the end of `buf` is dropped.
abbrev pub write_at : Bytes → ℕ → Bytes → Bytes
write_at [] n src = []
write_at (x ∷ buf) (suc n) src = x ∷ write_at buf n src
write_at (x ∷ buf) zero [] = x ∷ buf
write_at (x ∷ buf) zero (b ∷ src) = b ∷ write_at buf zero src

pub length-write_at : (buf : Bytes) (n : ℕ) (src : Bytes) → length (write_at buf n src) ≡ length buf
length-write_at [] n src = refl
length-write_at (x ∷ buf) (suc n) src = ap suc (length-write_at buf n src)
length-write_at (x ∷ buf) zero [] = refl
length-write_at (x ∷ buf) zero (b ∷ src) = ap suc (length-write_at buf zero src)

-- Writing at the end of a prefix extends the prefix.
pub take-write_at :
    (buf : Bytes) (n : ℕ) (src : Bytes)
    → n + length src ≤ length buf
    → take (n + length src) (write_at buf n src) ≡ take n buf ++ src
take-write_at [] zero [] h = refl
take-write_at [] zero (b ∷ src) h = absurd (omega arith)
take-write_at [] (suc n) src h = absurd (omega arith)
take-write_at (x ∷ buf) zero [] h = refl
take-write_at (x ∷ buf) zero (b ∷ src) h =
    rw zero-add (ap (◌∷◌ b) (rw zero-add at (take-write_at buf zero src (omega arith))))
take-write_at (x ∷ buf) (suc n) src h =
    rw suc-add (ap (◌∷◌ x) (take-write_at buf n src (omega arith)))
