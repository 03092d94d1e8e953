-- ===== src/Loader/Text.antt =====
-- The C strings of ld-instantos/src/main.cpp. A string is the list of its bytes before the NUL, and
-- `none` is the null pointer.
pub mod Laws
use i_user_apps.Common.CString.{copy_from}
use i_user_apps.Common.{
  ℕ, ◌+◌, Bool, true, false, ltb, ◌==◌, if◌then◌else◌, Option, some, none, List, [], ◌∷◌, ◌++◌,
  length,
}

-- The loop of `cstrEqual`: a NUL ends a string, and equals no other byte.
unfoldable pub equal_from : List ℕ → List ℕ → Bool
equal_from [] [] = true
equal_from [] (b ∷ bs) = false
equal_from (a ∷ rest) [] = false
equal_from (a ∷ rest) (b ∷ bs) = if a == b then equal_from rest bs else false

unfoldable pub cstr_equal : Option (List ℕ) → Option (List ℕ) → Bool
cstr_equal none b = false
cstr_equal (some a) none = false
cstr_equal (some a) (some b) = equal_from a b

abbrev text_of : Option (List ℕ) → List ℕ
text_of none = []
text_of (some src) = src

-- What the array `dst` holds after `copyString`.
unfoldable pub copy_string : List ℕ → ℕ → Option (List ℕ) → List ℕ
copy_string dst capacity src = if capacity == 0 then dst else copy_from 0 capacity (text_of src)

unfoldable pub append_string : List ℕ → ℕ → Option (List ℕ) → List ℕ
append_string dst capacity src = dst ++ copy_from (length dst) capacity (text_of src)
