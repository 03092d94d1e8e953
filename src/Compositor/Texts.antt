-- ===== src/Compositor/Texts.antt =====
-- The functions on texts of graphics-compositor/src: `has_png_suffix` and `append_text` of
-- render_primitives.cpp, and `format_date` of scene.cpp. A text is the list of its bytes before the
-- NUL.
pub mod Suffix
use i_user_apps.Common.{
  ℕ, zero, suc, ◌+◌, ◌-◌, ◌/◌, ◌%◌, Bool, false, ◌&&◌, ◌||◌, List, [], ◌∷◌, ◌++◌, ltb, leb, ◌==◌,
  if◌then◌else◌, length, get_or, take,
}
use i_user_apps.Common.CString.{codes, copy_from}

abbrev pub drop_bytes : ℕ → List ℕ → List ℕ
drop_bytes zero name = name
drop_bytes (suc n) [] = []
drop_bytes (suc n) (c ∷ name) = drop_bytes n name

unfoldable pub is_png : List ℕ → Bool
is_png (a ∷ (b ∷ (c ∷ (d ∷ [])))) =
    a == b'.' && (b == b'p' || b == b'P') && (c == b'n' || c == b'N') && (d == b'g' || d == b'G')
is_png _ = false

unfoldable pub has_png_suffix : List ℕ → Bool
has_png_suffix name =
    let suffix = drop_bytes (length name - 4) name in
    if ltb (length name) 4 then false else is_png suffix

-- A buffer without room for the NUL stays as it is.
unfoldable pub append_text : List ℕ → ℕ → List ℕ → List ℕ
append_text buffer capacity text =
    if capacity == 0 then buffer else buffer ++ copy_from (length buffer) capacity text

abbrev months : List (List ℕ)
months =
    codes "Jan"
    ∷ codes "Feb"
    ∷ codes "Mar"
    ∷ codes "Apr"
    ∷ codes "May"
    ∷ codes "Jun"
    ∷ codes "Jul"
    ∷ codes "Aug"
    ∷ codes "Sep"
    ∷ codes "Oct"
    ∷ codes "Nov"
    ∷ codes "Dec"
    ∷ []

-- The month's name, empty outside of 1 to 12.
unfoldable pub month_name : ℕ → List ℕ
month_name month = if leb 1 month && leb month 12 then get_or months (month - 1) [] else []

-- The loop over the four digits of the year, the last one first.
unfoldable pub year_digits : ℕ → ℕ → List ℕ → List ℕ
year_digits zero year digits = digits
year_digits (suc n) year digits = year_digits n (year / 10) ((b'0' + year % 10) ∷ digits)

abbrev tens_of_day : ℕ → List ℕ
tens_of_day day = if leb 10 day then (b'0' + day / 10) ∷ [] else []

-- What the array `out` of `size` bytes holds.
unfoldable pub format_date : ℕ → ℕ → ℕ → ℕ → List ℕ
format_date day month year size = take (size - 1) (
    tens_of_day day
    ++ ((b'0' + day % 10) ∷ (b' ' ∷ (month_name month ++ (b' ' ∷ year_digits 4 year [])))))
