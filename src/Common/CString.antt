-- ===== src/Common/CString.antt =====
-- C strings as the lists of their bytes before the NUL: literals, and bounded copies.
use Prim.Native.Nat.{ℕ, suc, ◌+◌, ◌-◌}
use Prim.Native.Char.{code}
use Prim.Native.String.{String}
use mathlib.Core.Path.{◌≡◌, refl, ap}
use mathlib.Core.Logic.{inl, inr, ◌↔◌}
use mathlib.Core.List.{List, [], ◌∷◌}
use native.Mathlib.Omega.{arith}
use mathlib.Core.Bool.{Bool, true, false}
use i_user_apps.Common.Tests.{ltb, ◌==◌, if◌then◌else◌, Bool-cases}
use i_user_apps.Common.Lists.{take}

-- The bytes of an ASCII literal.
abbrev pub codes : String → List ℕ
codes String.[] = []
codes (String.◌∷◌ c s) = code c ∷ codes s

-- `while (src[i] && i + 1 < capacity)`.
unfoldable pub copy_from : ℕ → ℕ → List ℕ → List ℕ
copy_from i capacity [] = []
copy_from i capacity (c ∷ src) =
    if ltb (i + 1) capacity then c ∷ copy_from (i + 1) capacity src else []

pub copy_from-eq-take :
    (src : List ℕ) (i capacity : ℕ) → copy_from i capacity src ≡ take (capacity - (i + 1)) src
unfolding copy_from
copy_from-eq-take [] i capacity = elim (Bool-cases (ltb (i + 1) capacity)) [
  | inl room ↦
      let n-suc : capacity - (i + 1) ≡ suc (capacity - (i + 1) - 1) = ground arith in rw n-suc
  | inr full ↦ let n-zero : capacity - (i + 1) ≡ 0 = ground arith in rw n-zero
]
copy_from-eq-take (c ∷ src) i capacity = elim (Bool-cases (ltb (i + 1) capacity)) [
  | inl room ↦
      let n-suc : capacity - (i + 1) ≡ suc (capacity - (i + 1 + 1)) = ground arith in
      rw (room, n-suc) (ap (λ t. c ∷ t) (copy_from-eq-take src (i + 1) capacity))
  | inr full ↦ let n-zero : capacity - (i + 1) ≡ 0 = ground arith in rw (full, n-zero)
]

-- `strcmp(a, b) == 0`.
abbrev pub same_text : List ℕ → List ℕ → Bool
same_text [] [] = true
same_text [] (y ∷ b) = false
same_text (x ∷ a) [] = false
same_text (x ∷ a) (y ∷ b) = if x == y then same_text a b else false

pub same_text_iff : (a b : List ℕ) → (same_text a b ≡ true) ↔ (a ≡ b)
same_text_iff [] [] = (λ e. refl, λ e. refl)
same_text_iff [] (y ∷ b) = (λ e. cc, λ e. cc)
same_text_iff (x ∷ a) [] = (λ e. cc, λ e. cc)
same_text_iff (x ∷ a) (y ∷ b) =
    let ih = same_text_iff a b in (λ e. ground (arith, ih.0), λ e. ground (arith, ih.1))
