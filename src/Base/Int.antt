-- ===== src/Base/Int.antt =====
-- Go's `int`: an integer with two's complement wrap-around at 64 bits.
use Prim.Native.Nat.{ℕ, ◌+◌, ◌-◌, ◌%◌, ◌^◌, ◌<◌}
use mathlib.Core.Bool.{Bool, false}
use mathlib.Core.Path.{◌≡◌}
use native.Mathlib.Omega.{arith}
use cifuzz.Base.Tests.{ltb, ◌==◌, if◌then◌else◌}

-- `negsuc n` is -(n + 1).
pub data ℤ : Type 0 where
  pos : ℕ → ℤ
  negsuc : ℕ → ℤ

abbrev pub int_min_abs : ℕ
int_min_abs = 2 ^ 63

abbrev pub word_mod : ℕ
word_mod = 2 ^ 64

-- A value of type `int`.
abbrev pub IsInt64 : ℤ → Type 0
IsInt64 (pos n) = n < int_min_abs
IsInt64 (negsuc n) = n < int_min_abs

-- The bit pattern of an integer, and the integer of a bit pattern.
abbrev pub to_word : ℤ → ℕ
to_word (pos n) = n % word_mod
to_word (negsuc n) = (word_mod - 1 - n % word_mod) % word_mod

abbrev pub of_word : ℕ → ℤ
of_word w = if ltb w int_min_abs then pos w else negsuc (word_mod - 1 - w)

-- `+` on `int`
unfoldable pub add64 : ℤ → ℤ → ℤ
add64 a b = of_word ((to_word a + to_word b) % word_mod)

abbrev pub int_eq : ℤ → ℤ → Bool
int_eq (pos m) (pos n) = m == n
int_eq (negsuc m) (negsuc n) = m == n
int_eq _ _ = false

-- `0 < z`
abbrev pub is_positive : ℤ → Bool
is_positive (pos n) = ltb 0 n
is_positive (negsuc n) = false

-- Without overflow `+` is the sum.
pub add64-pos : (m n : ℕ) → m + n < int_min_abs → add64 (pos m) (pos n) ≡ pos (m + n)
unfolding add64
add64-pos m n h = ground arith
