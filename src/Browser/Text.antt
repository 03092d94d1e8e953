-- ===== src/Browser/Text.antt =====
-- The functions on names and texts of file-browser/src/main.cpp. A string is the list of its bytes
-- before the NUL, and an array what it holds.
pub mod Search
pub mod Digits
use i_user_apps.Common.{none, map, add64, mul64}
use i_user_apps.Common.CString.{codes, copy_from}
use i_user_apps.Common.{
  ℕ, zero, suc, ◌+◌, ◌-◌, ◌*◌, ◌/◌, ◌%◌, Bool, true, false, not, ◌&&◌, ◌||◌, ltb, leb, ◌==◌,
  if◌then◌else◌, List, [], ◌∷◌, ◌++◌, length, take,
}

unfoldable pub append_text : List ℕ → ℕ → List ℕ → List ℕ
append_text buffer capacity text = buffer ++ copy_from (length buffer) capacity text

-- The `do` loop of `append_uint`, its digits with the last one first found in front.
unfoldable pub uint_loop : ℕ → ℕ → List ℕ → List ℕ
uint_loop zero value digits = digits
uint_loop (suc fuel) value digits =
    let digits' : List ℕ = (b'0' + value % 10) ∷ digits in
    let rest = uint_loop fuel (value / 10) digits' in if ltb 0 (value / 10) then rest else digits'

-- A `uint64_t` has twenty digits at most.
abbrev pub u64_digits : ℕ
u64_digits = 20

unfoldable pub append_uint : List ℕ → ℕ → ℕ → List ℕ
append_uint buffer capacity value = append_text buffer capacity (uint_loop u64_digits value [])

-- `strncpy` with a NUL in the last place.
unfoldable pub copy_string : ℕ → List ℕ → List ℕ
copy_string capacity text = take (capacity - 1) text

unfoldable pub ascii_lower : ℕ → ℕ
ascii_lower c = if leb b'A' c && leb c b'Z' then c - b'A' + b'a' else c

-- The inner loop of `contains_folded`: a NUL in the name equals no byte of the needle.
unfoldable pub starts_folded : List ℕ → List ℕ → Bool
starts_folded name [] = true
starts_folded [] (n ∷ needle) = false
starts_folded (c ∷ name) (n ∷ needle) =
    if ascii_lower c == ascii_lower n then starts_folded name needle else false

-- The outer loop.
unfoldable pub find_folded : List ℕ → List ℕ → Bool
find_folded [] needle = false
find_folded (c ∷ name) needle =
    let rest = find_folded name needle in if starts_folded (c ∷ name) needle then true else rest

unfoldable pub contains_folded : List ℕ → List ℕ → Bool
contains_folded name [] = true
contains_folded name (n ∷ needle) = find_folded name (n ∷ needle)

-- The loop of `extension_of`: what stands behind the last dot, the empty text if there is none.
unfoldable pub extension_from : List ℕ → List ℕ → List ℕ
extension_from [] found = found
extension_from (c ∷ name) found = extension_from name (if c == b'.' then name else found)

unfoldable pub extension_of : List ℕ → List ℕ
extension_of name = extension_from name []

unfoldable pub equals_folded : List ℕ → List ℕ → Bool
equals_folded [] [] = true
equals_folded [] (y ∷ b) = false
equals_folded (x ∷ a) [] = false
equals_folded (x ∷ a) (y ∷ b) = if ascii_lower x == ascii_lower y then equals_folded a b else false

unfoldable pub has_dot : List ℕ → Bool
has_dot [] = false
has_dot (c ∷ name) = let rest = has_dot name in if c == b'.' then true else rest

abbrev pub is_empty : List ℕ → Bool
is_empty [] = true
is_empty (c ∷ name) = false

unfoldable pub is_launchable_name : List ℕ → Bool
is_launchable_name name = if has_dot name then false else not (is_empty name)

pub data FileType : Type 0 where
  directory regular other_file : FileType

pub record DirEntry : Type 0 where
  pub name : List ℕ
  pub type : FileType

pub record BrowserEntry : Type 0 where
  pub dir : DirEntry
  pub executable : Bool
  pub size : ℕ

abbrev pub is_directory : FileType → Bool
is_directory FileType.directory = true
is_directory _ = false

abbrev pub is_regular : FileType → Bool
is_regular FileType.regular = true
is_regular _ = false

unfoldable pub kind_of : BrowserEntry → List ℕ
kind_of entry =
    let ext = extension_of entry.dir.name in
    if is_directory entry.dir.type
    then codes "Folder"
    else if entry.executable
    then codes "Program"
    else if equals_folded ext (codes "ttf") || equals_folded ext (codes "otf")
    then codes "Font"
    else if equals_folded ext (codes "png")
        || equals_folded ext (codes "jpg")
        || equals_folded ext (codes "svg")
    then codes "Image"
    else if equals_folded ext (codes "txt")
        || equals_folded ext (codes "md")
        || equals_folded ext (codes "c")
        || equals_folded ext (codes "h")
        || equals_folded ext (codes "map")
    then codes "Text"
    else codes "File"

abbrev pub kib : ℕ
kib = 1024

-- `(bytes * 10 + 512 * 1024) / (1024 * 1024)`.
abbrev pub tenths_of_mib : ℕ → ℕ
tenths_of_mib bytes = add64 (mul64 bytes 10) (512 * 1024) / (1024 * 1024)

-- What the array `out` of `capacity` bytes holds.
unfoldable pub format_size : BrowserEntry → ℕ → List ℕ
format_size entry capacity =
    if is_directory entry.dir.type
    then append_text [] capacity (codes "-")
    else if ltb entry.size kib
    then append_text (append_uint [] capacity entry.size) capacity (codes " B")
    else if ltb entry.size (kib * kib)
    then append_text (append_uint [] capacity ((entry.size + 512) / kib)) capacity (codes " KB")
    else append_text
        (append_uint
          (append_text (append_uint [] capacity (tenths_of_mib entry.size / 10)) capacity
            (codes "."))
          capacity (tenths_of_mib entry.size % 10))
        capacity (codes " MB")
