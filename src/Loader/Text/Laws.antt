-- ===== src/Loader/Text/Laws.antt =====
-- The string functions of ld-instantos/src/main.cpp against lists: equality, and truncated copies.
use i_user_apps.Common.{
  ℕ, ◌+◌, ◌-◌, ◌<◌, ◌≡◌, ◌↔◌, refl, ap, arith, true, some, List, [], ◌∷◌, ◌++◌, length, take,
}
use i_user_apps.Common.CString.{copy_from-eq-take}
use i_user_apps.Loader.Text.{equal_from, cstr_equal, copy_string, append_string}

pub equal_from_iff : (a b : List ℕ) → (equal_from a b ≡ true) ↔ (a ≡ b)
unfolding equal_from
equal_from_iff [] [] = (λ e. refl, λ e. refl)
equal_from_iff [] (b ∷ bs) = (λ e. cc, λ e. cc)
equal_from_iff (a ∷ rest) [] = (λ e. cc, λ e. cc)
equal_from_iff (a ∷ rest) (b ∷ bs) =
    let ih = equal_from_iff rest bs in (λ e. ground (arith, ih.0), λ e. ground (arith, ih.1))

-- Two strings compare as equal exactly when they are the same bytes.
pub cstr_equal_iff : (a b : List ℕ) → (cstr_equal (some a) (some b) ≡ true) ↔ (a ≡ b)
unfolding cstr_equal
cstr_equal_iff a b = equal_from_iff a b

-- A copy into an array of at least one byte holds the first `capacity - 1` bytes of the source.
pub copy_string-eq-take :
    (dst : List ℕ) (capacity : ℕ) (src : List ℕ)
    → 0 < capacity
    → copy_string dst capacity (some src) ≡ take (capacity - 1) src
unfolding copy_string
copy_string-eq-take dst capacity src h = ground (arith, copy_from-eq-take src 0 capacity)

-- An append fills the array up to the place of its NUL.
pub append_string-eq-take :
    (dst : List ℕ) (capacity : ℕ) (src : List ℕ)
    → append_string dst capacity (some src) ≡ dst ++ take (capacity - (length dst + 1)) src
unfolding append_string
append_string-eq-take dst capacity src = ap (◌++◌ dst) (copy_from-eq-take src (length dst) capacity)
