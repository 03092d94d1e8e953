-- ===== src/Terminal/Path.antt =====
-- `build_pts_path` of terminal/src/main.cpp: the path of the PTY slave.
use i_user_apps.Common.{
  ℕ, ◌≤◌, ◌<◌, ◌≡◌, refl, arith, u32_mod, ◌==◌, if◌then◌else◌, List, [], ◌∷◌, ◌++◌, length,
  length-append,
}
use i_user_apps.Common.Decimal.{
  decimal_from, AllDigits, digit_loop, digit_loop-value, digit_loop-AllDigits, length-digit_loop,
}

abbrev pub pts_prefix : List ℕ
pts_prefix = b'/' ∷ b'd' ∷ b'e' ∷ b'v' ∷ b'/' ∷ b'p' ∷ b't' ∷ b's' ∷ b'/' ∷ []

-- A `uint32_t` has ten digits at most.
abbrev u32_digits : ℕ
u32_digits = 10

-- What the buffer `digits` gives in the end.
unfoldable pub pts_digits : ℕ → List ℕ
pts_digits n = if n == 0 then b'0' ∷ [] else digit_loop u32_digits n []

unfoldable pub build_pts_path : ℕ → List ℕ
build_pts_path n = pts_prefix ++ (pts_digits n ++ (0 ∷ []))

pts_digits_bounds : (n : ℕ) → AllDigits (pts_digits n) × (length (pts_digits n) ≤ u32_digits)
unfolding pts_digits
pts_digits_bounds n =
    ground (arith, digit_loop-AllDigits u32_digits n [], length-digit_loop u32_digits n [])

decimal_from-pts_digits : (n : ℕ) → n < u32_mod → decimal_from 0 (pts_digits n) ≡ n
unfolding pts_digits
decimal_from-pts_digits n h = ground (arith, digit_loop-value u32_digits n [] (omega arith))

-- For a slave `n` of 32 bits, the path is the prefix and a decimal text of `n`, of at most ten
-- digits, and a NUL: it is in the buffer of 32 bytes, and the digits in theirs of 12.
pub build_pts_path_lem :
    (n : ℕ)
    → n < u32_mod
    → (ds : List ℕ) × (build_pts_path n ≡ pts_prefix ++ (ds ++ (0 ∷ [])))
      × AllDigits ds
      × (decimal_from 0 ds ≡ n)
      × (length ds ≤ 10)
      × (length (build_pts_path n) ≤ 20)
unfolding build_pts_path
build_pts_path_lem n h =
    let bounds = pts_digits_bounds n in
    (
      pts_digits n,
      refl,
      bounds.0,
      decimal_from-pts_digits n h,
      bounds.1,
      omega (arith, length-append (pts_digits n) (0 ∷ []), bounds.1),
    )
