-- ===== src/Common/Decimal.antt =====
-- Decimal numbers as texts of digits: their value, and the loop that takes a number apart.
use Prim.Native.Nat.{ℕ, zero, suc, ◌+◌, ◌-◌, ◌*◌, ◌/◌, ◌%◌, ◌^◌, ◌≤◌, ◌<◌}
use mathlib.Core.Path.{◌≡◌, ◌∙◌}
use mathlib.Core.Bool.{Bool, true, ◌&&◌}
use mathlib.Core.Logic.{inl, inr}
use mathlib.Core.List.{List, [], ◌∷◌}
use native.Mathlib.Omega.{arith}
use native.Mathlib.Nat.{pow-suc}
use i_user_apps.Common.Tests.{ltb, leb, if◌then◌else◌, Bool-cases}
use i_user_apps.Common.Lists.{length}

abbrev pub is_digit : ℕ → Bool
is_digit ch = leb b'0' ch && leb ch b'9'

-- The value of a text of digits that continues the number `v`.
abbrev pub decimal_from : ℕ → List ℕ → ℕ
decimal_from v [] = v
decimal_from v (d ∷ ds) = decimal_from (v * 10 + (d - b'0')) ds

abbrev pub AllDigits : List ℕ → Type 0
AllDigits [] = Unit {0}
AllDigits (d ∷ ds) = (is_digit d ≡ true) × AllDigits ds

-- `while (n > 0) { digits[d++] = '0' + n % 10; n /= 10; }`, the buffer with its last byte first.
unfoldable pub digit_loop : ℕ → ℕ → List ℕ → List ℕ
digit_loop zero n digits = digits
digit_loop (suc fuel) n digits =
    let rest = digit_loop fuel (n / 10) ((b'0' + n % 10) ∷ digits) in
    if ltb 0 n then rest else digits

-- With a round for each digit the loop ends, and its digits stand for the number.
pub digit_loop-value :
    (fuel n : ℕ) (digits : List ℕ)
    → n < 10 ^ fuel
    → decimal_from 0 (digit_loop fuel n digits) ≡ decimal_from n digits
unfolding digit_loop
digit_loop-value zero n digits h = let n-zero : n ≡ 0 = omega arith in rw n-zero
digit_loop-value (suc fuel) n digits h = elim (Bool-cases (ltb 0 n)) [
  | inl more ↦
      let small : n / 10 < 10 ^ fuel = omega (arith, pow-suc 10 fuel) in
      let same : n / 10 * 10 + (b'0' + n % 10 - b'0') ≡ n = omega arith in
      rw more (digit_loop-value fuel (n / 10) ((b'0' + n % 10) ∷ digits) small ∙ rw same)
  | inr over ↦ let n-zero : n ≡ 0 = ground arith in rw (over, n-zero)
]

pub digit_loop-AllDigits :
    (fuel n : ℕ) (digits : List ℕ) → AllDigits digits → AllDigits (digit_loop fuel n digits)
unfolding digit_loop
digit_loop-AllDigits zero n digits h = h
digit_loop-AllDigits (suc fuel) n digits h =
    ground (arith, digit_loop-AllDigits fuel (n / 10) ((b'0' + n % 10) ∷ digits) (ground arith, h))

pub length-digit_loop :
    (fuel n : ℕ) (digits : List ℕ) → length (digit_loop fuel n digits) ≤ length digits + fuel
unfolding digit_loop
length-digit_loop zero n digits = omega arith
length-digit_loop (suc fuel) n digits =
    ground (arith, length-digit_loop fuel (n / 10) ((b'0' + n % 10) ∷ digits))
