-- ===== src/Browser/Events.antt =====
-- What the user does in the window of file-browser/src/main.cpp: the history, the places, the rows.
pub mod History
pub mod Valid
pub mod Moves
pub mod Reach
use i_user_apps.Common.{
  ℕ, ◌+◌, ◌-◌, Bool, true, false, not, ◌&&◌, ◌||◌, Option, none, some, List, [], ◌∷◌, ltb, leb,
  ◌==◌, if◌then◌else◌, length, get_or, take, reverse,
}
use i_user_apps.Common.CString.{codes, same_text}
use i_user_apps.Browser.Text.{
  append_text, copy_string, DirEntry, BrowserEntry, FileType, is_directory, is_empty,
}
use i_user_apps.Browser.Entries.{compare_names, is_less}
use i_user_apps.Browser.FolderPath.{
  slash, path_is_root, build_child_path, build_parent_path, last_component,
}
use i_user_apps.Browser.State.{
  FileSystem, Browser, max_entries, max_places, max_history, path_capacity, row_entry,
  selected_name, set_message, apply_filter, load_directory, found_entries, is_none, show_status,
}

-- A full stack loses its oldest path.
unfoldable pub push : List (List ℕ) → List ℕ → List (List ℕ)
push stack path =
    copy_string path_capacity path
    ∷ (if length stack == max_history then take (max_history - 1) stack else stack)

unfoldable pub navigate : FileSystem → List ℕ → Option (List ℕ) → Browser → Browser
navigate fs path select b =
    let moved = load_directory fs select (record b {
      back = push b.back b.current_path;
      forward = [];
      current_path = copy_string path_capacity path;
      search = [];
    }) in
    if same_text path b.current_path then b else moved

unfoldable pub go_back : FileSystem → Browser → Browser
go_back fs b = elim b.back [
  | [] ↦ b
  | path ∷ older ↦ load_directory fs none (record b {
    forward = push b.forward b.current_path;
    current_path = copy_string path_capacity path;
    back = older;
    search = [];
  })
]

unfoldable pub go_forward : FileSystem → Browser → Browser
go_forward fs b = elim b.forward [
  | [] ↦ b
  | path ∷ later ↦ load_directory fs none (record b {
    back = push b.back b.current_path;
    current_path = copy_string path_capacity path;
    forward = later;
    search = [];
  })
]

unfoldable pub open_parent : FileSystem → Browser → Browser
open_parent fs b =
    let left = copy_string path_capacity (last_component b.current_path b.current_path) in
    let parent = build_parent_path b.current_path path_capacity in
    if path_is_root b.current_path then b else navigate fs parent (some left) b

unfoldable pub open_place : FileSystem → ℕ → Browser → Browser
open_place fs row b =
    let path = append_text (slash ∷ []) path_capacity (get_or b.place_names row []) in
    if row == 0 then navigate fs (slash ∷ []) none b else navigate fs path none b

abbrev started_capacity : ℕ
started_capacity = 160

unfoldable pub started_line : List ℕ → List ℕ
started_line name =
    append_text (append_text [] started_capacity (codes "Started ")) started_capacity name

unfoldable pub run_program : FileSystem → BrowserEntry → List ℕ → Browser → Browser
run_program fs e target b = elim (fs.spawn target) [
  | none ↦ set_message b (codes "Could not start it") true
  | some pid ↦ set_message b (started_line e.dir.name) false
]

unfoldable pub activate_entry : FileSystem → BrowserEntry → Browser → Browser
activate_entry fs e b =
    let target = build_child_path b.current_path e.dir.name path_capacity in
    if is_directory e.dir.type
    then navigate fs target none b
    else if not e.executable
    then set_message b (codes "Not a program") true
    else run_program fs e target b

-- A row that is not shown is ignored.
unfoldable pub open_entry : FileSystem → ℕ → Browser → Browser
open_entry fs row b = elim (row_entry b row) [ none ↦ b | some e ↦ activate_entry fs e b ]

-- The escape key.
unfoldable pub escape_key : Browser → Browser
escape_key b =
    if is_empty b.search
    then record b { closed = true }
    else apply_filter none (record b { search = [] })

-- A row that the list selects is one of those that it was told to show.
unfoldable pub select_row : ℕ → Browser → Browser
select_row row b =
    if ltb row (length b.visible) then show_status (record b { selected = some row }) else b

-- The keys that `on_key_down` tells apart.
pub data KeyName : Type 0 where
  key_f key_up key_left key_right backspace f5 escape other_key : KeyName

pub record KeyEvent : Type 0 where
  pub ctrl : Bool
  pub alt : Bool
  pub key : KeyName

-- Whether the key is taken, and the window. Ctrl+F only moves the focus.
unfoldable pub plain_key : FileSystem → KeyName → Browser → Bool × Browser
plain_key fs KeyName.backspace b = (true, open_parent fs b)
plain_key fs KeyName.f5 b = (true, load_directory fs (selected_name b) b)
plain_key fs KeyName.escape b = (true, escape_key b)
plain_key fs _ b = (false, b)

unfoldable pub alt_key : FileSystem → KeyName → Browser → Bool × Browser
alt_key fs KeyName.key_up b = (true, open_parent fs b)
alt_key fs KeyName.key_left b = (true, go_back fs b)
alt_key fs KeyName.key_right b = (true, go_forward fs b)
alt_key fs _ b = (false, b)

abbrev pub is_key_f : KeyName → Bool
is_key_f KeyName.key_f = true
is_key_f _ = false

unfoldable pub on_key_down : FileSystem → KeyEvent → Browser → Bool × Browser
on_key_down fs event b =
    if event.ctrl && is_key_f event.key
    then (true, b)
    else if event.ctrl
    then (false, b)
    else if event.alt
    then alt_key fs event.key b
    else plain_key fs event.key b

-- The callbacks that `on_create` sets, and the keys.
pub data Event : Type 0 where
  back_clicked forward_clicked up_clicked : Event
  key_pressed : (key : KeyEvent) → Event
  crumb_clicked : (path : List ℕ) → Event
  search_changed : (text : List ℕ) → Event
  row_selected row_activated : (row : ℕ) → Event
  place_activated : (row : ℕ) → Event

unfoldable pub handle : FileSystem → Event → Browser → Browser
handle fs Event.back_clicked b = go_back fs b
handle fs Event.forward_clicked b = go_forward fs b
handle fs Event.up_clicked b = open_parent fs b
handle fs (Event.key_pressed key) b = (on_key_down fs key b).1
handle fs (Event.crumb_clicked path) b = navigate fs path none b
handle fs (Event.search_changed text) b = apply_filter none (record b { search = text })
handle fs (Event.row_selected row) b = select_row row b
handle fs (Event.row_activated row) b = open_entry fs row b
handle fs (Event.place_activated row) b = open_place fs row b

-- The inner loop of `load_places`: the places before the moving one, the last of them first.
unfoldable pub insert_place : List ℕ → List (List ℕ) → List (List ℕ)
insert_place moving [] = moving ∷ []
insert_place moving (p ∷ before) =
    if is_less (compare_names moving p)
    then p ∷ insert_place moving before
    else moving ∷ (p ∷ before)

unfoldable pub sort_places : List (List ℕ) → List (List ℕ) → List (List ℕ)
sort_places sorted [] = sorted
sort_places sorted (p ∷ rest) = sort_places (insert_place p sorted) rest

abbrev place_capacity : ℕ
place_capacity = 64

abbrev starts_with_dot : List ℕ → Bool
starts_with_dot [] = false
starts_with_dot (c ∷ name) = c == b'.'

-- The folders of the root that are not hidden, with `count` places found.
unfoldable pub find_places : List DirEntry → ℕ → List (List ℕ)
find_places [] count = []
find_places (dir ∷ found) count =
    let skipped = find_places found count in
    let more = find_places found (count + 1) in
    if leb max_places count
    then []
    else if not (is_directory dir.type) || starts_with_dot dir.name
    then skipped
    else copy_string place_capacity dir.name ∷ more

unfoldable pub load_places : FileSystem → List (List ℕ)
load_places fs =
    copy_string place_capacity (codes "Root")
    ∷ reverse (sort_places [] (find_places (found_entries (fs.readdir (slash ∷ []))) 1))

abbrev first_path : List ℕ
first_path = codes "/bin"

-- `on_create`.
unfoldable pub on_create : FileSystem → Browser
on_create fs = load_directory fs none (record {
  current_path = first_path;
  entries = [];
  search = [];
  visible = [];
  selected = none;
  place_names = load_places fs;
  place = 0;
  back = [];
  forward = [];
  status = [];
  status_is_error = false;
  back_enabled = false;
  forward_enabled = false;
  up_enabled = false;
  closed = false;
})
