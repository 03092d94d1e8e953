-- ===== src/Browser/State.antt =====
-- The state of the window of file-browser/src/main.cpp: what it shows of a folder. The file system is
-- a parameter. The message of the source is shown as soon as it is set, so only the text of the
-- status line is kept; where the focus is, is left to the library of controls.
pub mod Rows
use i_user_apps.Common.{
  ℕ, ◌+◌, ◌-◌, Bool, true, false, not, ◌&&◌, ◌||◌, Option, none, some, List, [], ◌∷◌, leb, ◌==◌,
  if◌then◌else◌, length, get_elem?, set,
}
use i_user_apps.Common.CString.{codes, same_text}
use i_user_apps.Browser.Text.{
  append_text, append_uint, copy_string, contains_folded, is_launchable_name, DirEntry,
  BrowserEntry, is_regular, is_directory, is_empty,
}
use i_user_apps.Browser.Entries.{sort_entries, compare_names, is_less}
use i_user_apps.Browser.FolderPath.{slash, path_is_root, build_child_path}

-- The answers of the system: the entries of a folder, at most as many as the array holds; the size
-- of a file; and the process of a program that is started.
pub record FileSystem : Type 0 where
  pub readdir : List ℕ → Option (List DirEntry)
  pub stat : List ℕ → Option ℕ
  pub spawn : List ℕ → Option ℕ

abbrev pub max_entries : ℕ
max_entries = 512

abbrev pub max_places : ℕ
max_places = 16

abbrev pub max_history : ℕ
max_history = 32

abbrev pub path_capacity : ℕ
path_capacity = 256

-- The last path on a stack is the first of its list. `selected` is the row of the list.
pub record Browser : Type 0 where
  pub current_path : List ℕ
  pub entries : List BrowserEntry
  pub search : List ℕ
  pub visible : List ℕ
  pub selected : Option ℕ
  pub place_names : List (List ℕ)
  pub place : ℕ
  pub back : List (List ℕ)
  pub forward : List (List ℕ)
  pub status : List ℕ
  pub status_is_error : Bool
  pub back_enabled : Bool
  pub forward_enabled : Bool
  pub up_enabled : Bool
  pub closed : Bool

unfoldable pub row_entry : Browser → ℕ → Option BrowserEntry
row_entry b row = elim (get_elem? b.visible row) [
  | none ↦ none
  | some index ↦ get_elem? b.entries index
]

abbrev entry_name : Option BrowserEntry → Option (List ℕ)
entry_name none = none
entry_name (some e) = some e.dir.name

unfoldable pub selected_name : Browser → Option (List ℕ)
selected_name b = elim b.selected [ none ↦ none | some row ↦ entry_name (row_entry b row) ]

abbrev line_capacity : ℕ
line_capacity = 200

-- `show_status` without a message.
unfoldable pub selection_text : List ℕ → Option (List ℕ) → List ℕ
selection_text line none = line
selection_text line (some name) =
    append_text (append_text (append_text line line_capacity (codes "  -  ")) line_capacity name)
      line_capacity (codes " selected")

unfoldable pub status_line : Browser → List ℕ
status_line b =
    let count = length b.entries in
    let shown = length b.visible in
    let partly : List ℕ =
      if shown == count
      then []
      else append_text (append_uint [] line_capacity shown) line_capacity (codes " of ") in
    let counted =
      append_text (append_uint partly line_capacity count) line_capacity
        (if count == 1 then codes " item" else codes " items") in
    if count == 0
    then append_text [] line_capacity (codes "Empty folder")
    else selection_text counted (selected_name b)

unfoldable pub show_status : Browser → Browser
show_status b = record b { status = status_line b; status_is_error = false }

abbrev message_capacity : ℕ
message_capacity = 160

unfoldable pub set_message : Browser → List ℕ → Bool → Browser
set_message b text error = record b {
  status = copy_string message_capacity text;
  status_is_error = error;
}

-- The loop of `apply_filter`: the entries from `index` on that contain the search text.
unfoldable pub visible_rows : List ℕ → List BrowserEntry → ℕ → List ℕ
visible_rows search [] index = []
visible_rows search (e ∷ entries) index =
    let rest = visible_rows search entries (index + 1) in
    if contains_folded e.dir.name search then index ∷ rest else rest

-- The row of the first of them with this name; `row` is the next one.
unfoldable pub find_row : List ℕ → List ℕ → List BrowserEntry → ℕ → Option ℕ
find_row search name [] row = none
find_row search name (e ∷ entries) row =
    let next = find_row search name entries (row + 1) in
    let past = find_row search name entries row in
    if contains_folded e.dir.name search
    then (if same_text e.dir.name name then some row else next)
    else past

abbrev pub or_first : Option ℕ → List ℕ → Option ℕ
or_first (some row) visible = some row
or_first none [] = none
or_first none (index ∷ visible) = some 0

abbrev or_selected : Option (List ℕ) → Option (List ℕ) → Option (List ℕ)
or_selected (some name) previous = some name
or_selected none previous = previous

abbrev pub kept_name : Option (List ℕ) → List ℕ
kept_name none = []
kept_name (some name) = copy_string path_capacity name

unfoldable pub apply_filter : Option (List ℕ) → Browser → Browser
apply_filter select b =
    let keep = kept_name (or_selected select (selected_name b)) in
    let visible = visible_rows b.search b.entries 0 in
    let found = if is_empty keep then none else find_row b.search keep b.entries 0 in
    show_status (record b { visible = visible; selected = or_first found visible })

unfoldable pub is_dot_name : List ℕ → Bool
is_dot_name name = same_text name (codes ".") || same_text name (codes "..")

abbrev or_zero : Option ℕ → ℕ
or_zero none = 0
or_zero (some size) = size

unfoldable pub read_entry : FileSystem → List ℕ → DirEntry → BrowserEntry
read_entry fs path dir = record {
  dir = dir;
  executable = is_regular dir.type && is_launchable_name dir.name;
  size =
      if is_regular dir.type
      then or_zero (fs.stat (build_child_path path dir.name path_capacity))
      else 0;
}

-- The loop of `load_directory`, with `count` entries read.
unfoldable pub read_entries : FileSystem → List ℕ → List DirEntry → ℕ → List BrowserEntry
read_entries fs path [] count = []
read_entries fs path (dir ∷ found) count =
    let skipped = read_entries fs path found count in
    let more = read_entries fs path found (count + 1) in
    if leb max_entries count
    then []
    else if is_dot_name dir.name
    then skipped
    else read_entry fs path dir ∷ more

abbrev pub found_entries : Option (List DirEntry) → List DirEntry
found_entries none = []
found_entries (some found) = found

-- `place` is the first component of `path`, or the whole of it.
unfoldable pub is_component : List ℕ → List ℕ → Bool
is_component [] [] = true
is_component (c ∷ path) [] = c == slash
is_component [] (d ∷ place) = false
is_component (c ∷ path) (d ∷ place) = if c == d then is_component path place else false

-- The loop of `sync_place`, from place `index` on.
unfoldable pub match_place : List ℕ → List (List ℕ) → ℕ → ℕ
match_place path [] index = 0
match_place path (place ∷ places) index =
    let rest = match_place path places (index + 1) in
    if is_component path place then index else rest

abbrev tail_of {ℓ} : {A : Type ℓ} → List A → List A
tail_of [] = []
tail_of (x ∷ xs) = xs

unfoldable pub sync_place : Browser → Browser
sync_place b = record b { place = match_place (tail_of b.current_path) (tail_of b.place_names) 1 }

abbrev pub is_none {ℓ} : {A : Type ℓ} → Option A → Bool
is_none none = true
is_none (some a) = false

abbrev pub some_path {ℓ} : {A : Type ℓ} → List A → Bool
some_path [] = false
some_path (x ∷ xs) = true

unfoldable pub load_directory : FileSystem → Option (List ℕ) → Browser → Browser
load_directory fs select b =
    let found = fs.readdir b.current_path in
    let entries = sort_entries (read_entries fs b.current_path (found_entries found) 0) in
    let filtered = apply_filter (some (kept_name select)) (record b { entries = entries }) in
    let told =
      if is_none found
      then set_message filtered (codes "Cannot read this folder") true
      else filtered in
    sync_place (record told {
      back_enabled = some_path b.back;
      forward_enabled = some_path b.forward;
      up_enabled = not (path_is_root b.current_path);
    })
