-- ===== src/Base/Text.antt =====
-- String literals of the C code as bytes, and what a bounded `switch_snprintf` keeps.
use Prim.Native.Nat.{ℕ, ◌-◌}
use Prim.Native.Char.{code}
use Prim.Native.String.{String}
use mathlib.Core.Bool.{Bool, true, false}
use mathlib.Core.List.{[], ◌∷◌}
use freeswitch_mod_cpg.Base.Lists.{Bytes, take}

-- The bytes of an ASCII literal.
abbrev pub codes : String → Bytes
codes String.[] = []
codes (String.◌∷◌ c s) = code c ∷ codes s

-- The text left in a buffer of `size` bytes, the last of which is the NUL.
abbrev pub snprintf : ℕ → Bytes → Bytes
snprintf size text = take (size - 1) text

-- FreeSWITCH's test for a NULL or empty string; the pointers here are never NULL.
abbrev pub zstr : Bytes → Bool
zstr [] = true
zstr (c ∷ s) = false
