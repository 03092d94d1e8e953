-- ===== src/Browser/Text/Digits.antt =====
-- The digits that `append_uint` of file-browser/src/main.cpp writes.
use i_user_apps.Common.{
  ℕ, zero, suc, ◌+◌, ◌-◌, ◌*◌, ◌/◌, ◌%◌, ◌^◌, ◌<◌, ◌≡◌, ap, ◌∙◌, inl, inr, false, List, [], ◌∷◌,
  arith, ltb, Bool-cases, u64_mod,
}
use i_user_apps.Common.Decimal.{decimal_from}
use native.Mathlib.Nat.{pow-suc}
use i_user_apps.Browser.Text.{uint_loop, u64_digits}

-- With a round for each digit the loop ends, and its digits stand for the number.
uint_loop-value :
    (fuel value : ℕ) (digits : List ℕ)
    → value < 10 ^ suc fuel
    → decimal_from 0 (uint_loop (suc fuel) value digits) ≡ decimal_from value digits
unfolding uint_loop
uint_loop-value zero value digits h =
    let last : ltb 0 (value / 10) ≡ false = ground (arith, h) in
    let alone : 0 * 10 + (b'0' + value % 10 - b'0') ≡ value = omega (arith, h) in
    rw last (ap (λ v. decimal_from v digits) alone)
uint_loop-value (suc fuel) value digits h = elim (Bool-cases (ltb 0 (value / 10))) [
  | inl more ↦
      let small : value / 10 < 10 ^ suc fuel = omega (arith, h, pow-suc 10 (suc fuel)) in
      let same : value / 10 * 10 + (b'0' + value % 10 - b'0') ≡ value = omega arith in
      let rest = uint_loop-value fuel (value / 10) ((b'0' + value % 10) ∷ digits) small in
      rw more (rest ∙ ap (λ v. decimal_from v digits) same)
  | inr over ↦
      let alone : 0 * 10 + (b'0' + value % 10 - b'0') ≡ value = ground (arith, over) in
      rw over (ap (λ v. decimal_from v digits) alone)
]

-- Twenty rounds are enough for a `uint64_t`.
uint_loop_decimal :
    (value : ℕ) → value < u64_mod → decimal_from 0 (uint_loop u64_digits value []) ≡ value
uint_loop_decimal value h = uint_loop-value 19 value [] (omega (arith, h))
