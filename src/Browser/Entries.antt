-- ===== src/Browser/Entries.antt =====
-- `compare_names`, `entry_before` and `sort_entries` of file-browser/src/main.cpp.
pub mod Order
pub mod Belongs
pub mod Sort
use i_user_apps.Common.{reverse}
use i_user_apps.Common.{
  ℕ, ◌+◌, ◌%◌, Bool, true, false, not, ltb, ◌==◌, if◌then◌else◌, List, [], ◌∷◌,
}
use i_user_apps.Browser.Text.{ascii_lower, BrowserEntry, is_directory}

-- The result of `compare_names`: -1, 0 or 1.
pub data NameOrder : Type 0 where
  less equal greater : NameOrder

-- A `char` is signed: this moves the bytes from 128 on below the others, in their order.
abbrev pub signed_key : ℕ → ℕ
signed_key c = (c + 128) % 256

unfoldable pub order_chars : ℕ → ℕ → NameOrder
order_chars a b = if ltb (signed_key a) (signed_key b) then NameOrder.less else NameOrder.greater

-- A text ends with its NUL, which no byte equals.
unfoldable pub compare_names : List ℕ → List ℕ → NameOrder
compare_names [] [] = NameOrder.equal
compare_names [] (b ∷ rhs) = order_chars 0 (ascii_lower b)
compare_names (a ∷ lhs) [] = order_chars (ascii_lower a) 0
compare_names (a ∷ lhs) (b ∷ rhs) =
    if ascii_lower a == ascii_lower b
    then compare_names lhs rhs
    else order_chars (ascii_lower a) (ascii_lower b)

abbrev pub is_less : NameOrder → Bool
is_less NameOrder.less = true
is_less _ = false

abbrev same_kind : Bool → Bool → Bool
same_kind a b = if a then b else not b

-- Folders first, then by name ignoring case.
unfoldable pub entry_before : BrowserEntry → BrowserEntry → Bool
entry_before lhs rhs =
    let lhs_dir = is_directory lhs.dir.type in
    let rhs_dir = is_directory rhs.dir.type in
    if not (same_kind lhs_dir rhs_dir)
    then lhs_dir
    else is_less (compare_names lhs.dir.name rhs.dir.name)

-- The inner loop of `sort_entries`: the entries before the moving one, the last of them first.
unfoldable pub insert_entry : BrowserEntry → List BrowserEntry → List BrowserEntry
insert_entry moving [] = moving ∷ []
insert_entry moving (e ∷ before) =
    if entry_before moving e then e ∷ insert_entry moving before else moving ∷ (e ∷ before)

-- The outer loop: the entries that are sorted, the last first, and those to go.
unfoldable pub sort_loop : List BrowserEntry → List BrowserEntry → List BrowserEntry
sort_loop sorted [] = sorted
sort_loop sorted (moving ∷ rest) = sort_loop (insert_entry moving sorted) rest

unfoldable pub sort_entries : List BrowserEntry → List BrowserEntry
sort_entries entries = reverse (sort_loop [] entries)
