-- ===== src/Common/Words.antt =====
-- Machine words as native numbers below 2 ^ w, with their wrap-around. An `int` is its bit pattern.
use Prim.Native.Nat.{ℕ, ◌+◌, ◌-◌, ◌*◌, ◌%◌, ◌^◌}
use mathlib.Core.Bool.{Bool, ◌&&◌}
use i_user_apps.Common.Tests.{ltb, leb}

abbrev pub u32_mod : ℕ
u32_mod = 2 ^ 32

abbrev pub int_max : ℕ
int_max = 2 ^ 31 - 1

abbrev pub u64_mod : ℕ
u64_mod = 2 ^ 64

abbrev pub add32 : ℕ → ℕ → ℕ
add32 a b = (a + b) % u32_mod

abbrev pub sub32 : ℕ → ℕ → ℕ
sub32 a b = (a + u32_mod - b) % u32_mod

abbrev pub mul32 : ℕ → ℕ → ℕ
mul32 a b = a * b % u32_mod

abbrev pub add64 : ℕ → ℕ → ℕ
add64 a b = (a + b) % u64_mod

abbrev pub sub64 : ℕ → ℕ → ℕ
sub64 a b = (a + u64_mod - b) % u64_mod

-- `a <= b` and `a > 0` on the patterns of two `int`s.
abbrev pub sle32 : ℕ → ℕ → Bool
sle32 a b = leb ((a + 2 ^ 31) % u32_mod) ((b + 2 ^ 31) % u32_mod)

abbrev pub is_positive32 : ℕ → Bool
is_positive32 a = ltb 0 a && leb a int_max

abbrev pub mul64 : ℕ → ℕ → ℕ
mul64 a b = (a * b) % u64_mod
