-- ===== src/Browser/Events/Valid.antt =====
-- What holds of the window of file-browser/src/main.cpp whatever the user does.
use i_user_apps.Common.{
  ℕ, ◌≤◌, ◌<◌, ◌≡◌, refl, ap, ◌∙◌, subst, inl, inr, true, not, Option, none, some, List, [], ◌∷◌,
  arith, if◌then◌else◌, Bool-cases, length, get_elem?, All,
}
use i_user_apps.Browser.Text.{contains_folded, BrowserEntry, is_empty}
use i_user_apps.Browser.Entries.{sort_entries}
use i_user_apps.Browser.FolderPath.{path_is_root}
use i_user_apps.Browser.State.{
  FileSystem, Browser, max_entries, max_history, path_capacity, visible_rows, find_row,
  read_entries, found_entries, apply_filter, load_directory, show_status, set_message, sync_place,
  is_none, some_path, kept_name,
}
use i_user_apps.Browser.State.Rows.{
  ShowsFrom, visible_rows-Shows, IsAscending, visible_rows-IsAscending, visible_rows_complete,
  InRange, find_row-InRange, or_first-InRange, read_entries-bound, length-sort_entries,
}
use i_user_apps.Browser.Events.History.{SameHistory, load_directory-SameHistory}

abbrev pub IsShort : List ℕ → Type 0
IsShort path = length path < path_capacity

-- The paths fit in their arrays, and the stacks in theirs.
pub record HistoryFits (b : Browser) : Type 0 where
  pub current : IsShort b.current_path
  pub back : All IsShort b.back
  pub forward : All IsShort b.forward
  pub back_bound : length b.back ≤ max_history
  pub forward_bound : length b.forward ≤ max_history

-- The rows are the entries that contain the search text, each of them once and in their order, and one
-- of them is selected.
pub record Listing (b : Browser) : Type 0 where
  pub bound : length b.entries ≤ max_entries
  pub rows : All (ShowsFrom b.search b.entries 0) b.visible
  pub ascending : IsAscending b.visible
  pub complete :
      (i : ℕ) (e : BrowserEntry)
      → get_elem? b.entries i ≡ some e
      → contains_folded e.dir.name b.search ≡ true
      → (row : ℕ) × (get_elem? b.visible row ≡ some i)
  pub selected : InRange b.selected (length b.visible)

record SameListing (b u : Browser) : Type 0 where
  entries : u.entries ≡ b.entries
  text : u.search ≡ b.search
  visible : u.visible ≡ b.visible
  selected : u.selected ≡ b.selected

Listing-Same : (b u : Browser) → SameListing b u → Listing b → Listing u
Listing-Same b u same old = record {
  bound = rw same.entries old.bound;
  rows = rw (same.text, same.entries, same.visible) old.rows;
  ascending = rw same.visible old.ascending;
  complete = λ i e. rw (same.text, same.entries, same.visible) (old.complete i e);
  selected = rw (same.selected, same.visible) old.selected;
}

find_row_selected :
    (keep text : List ℕ) (entries : List BrowserEntry)
    → InRange
        (if is_empty keep then none else find_row text keep entries 0)
        (length (visible_rows text entries 0))
find_row_selected [] text entries = tt
find_row_selected (c ∷ keep) text entries =
    subst (InRange (find_row text (c ∷ keep) entries 0)) (omega arith)
      (find_row-InRange text (c ∷ keep) entries 0 0)

pub apply_filter-Listing :
    (select : Option (List ℕ)) (b : Browser)
    → length b.entries ≤ max_entries
    → Listing (apply_filter select b)
unfolding apply_filter show_status
apply_filter-Listing select b bound = record {
  bound = bound;
  rows = visible_rows-Shows b.search b.entries 0;
  ascending = visible_rows-IsAscending b.search b.entries 0;
  complete = λ i e at hit.
      let (row, found) = visible_rows_complete b.search b.entries 0 i e at hit in
      (row, found ∙ ap some (omega arith));
  selected =
      or_first-InRange _ (visible_rows b.search b.entries 0)
        (find_row_selected _ b.search b.entries);
}

-- The entries that `load_directory` puts in place.
abbrev loaded : FileSystem → Browser → List BrowserEntry
loaded fs b =
    sort_entries (read_entries fs b.current_path (found_entries (fs.readdir b.current_path)) 0)

loaded-bound : (fs : FileSystem) (b : Browser) → length (loaded fs b) ≤ max_entries
loaded-bound fs b =
    let found = found_entries (fs.readdir b.current_path) in
    omega (
      arith,
      length-sort_entries (read_entries fs b.current_path found 0),
      read_entries-bound fs b.current_path found 0,
    )

abbrev filtered : FileSystem → Option (List ℕ) → Browser → Browser
filtered fs select b = apply_filter (some (kept_name select)) (record b { entries = loaded fs b })

load_directory-SameListing :
    (fs : FileSystem) (select : Option (List ℕ)) (b : Browser)
    → SameListing (filtered fs select b) (load_directory fs select b)
unfolding load_directory sync_place apply_filter show_status set_message
load_directory-SameListing fs select b = elim (Bool-cases (is_none (fs.readdir b.current_path))) [
  | inl failed ↦ ground (arith, failed)
  | inr found ↦ ground (arith, found)
]

-- The buttons can be used when there is somewhere to go.
pub record Buttons (b : Browser) : Type 0 where
  pub back_button : b.back_enabled ≡ some_path b.back
  pub forward_button : b.forward_enabled ≡ some_path b.forward
  pub up_button : b.up_enabled ≡ not (path_is_root b.current_path)

load_directory-Buttons :
    (fs : FileSystem) (select : Option (List ℕ)) (b : Browser)
    → Buttons (load_directory fs select b)
unfolding load_directory sync_place apply_filter show_status set_message
load_directory-Buttons fs select b = elim (Bool-cases (is_none (fs.readdir b.current_path))) [
  | inl failed ↦ rw failed (record { back_button = refl; forward_button = refl; up_button = refl })
  | inr found ↦ rw found (record { back_button = refl; forward_button = refl; up_button = refl })
]

pub record IsValid (b : Browser) : Type 0 where
  pub history : HistoryFits b
  pub listing : Listing b
  pub buttons : Buttons b

HistoryFits-Same : (b u : Browser) → SameHistory b u → HistoryFits b → HistoryFits u
HistoryFits-Same b u same old = record {
  current = rw same.current_path old.current;
  back = rw same.back old.back;
  forward = rw same.forward old.forward;
  back_bound = rw same.back old.back_bound;
  forward_bound = rw same.forward old.forward_bound;
}

pub load_directory-IsValid :
    (fs : FileSystem) (select : Option (List ℕ)) (b : Browser)
    → HistoryFits b
    → IsValid (load_directory fs select b)
load_directory-IsValid fs select b old = record {
  history =
      HistoryFits-Same b (load_directory fs select b) (load_directory-SameHistory fs select b) old;
  listing =
      Listing-Same (filtered fs select b) (load_directory fs select b)
        (load_directory-SameListing fs select b)
        (apply_filter-Listing (some (kept_name select)) (record b { entries = loaded fs b })
          (loaded-bound fs b));
  buttons = load_directory-Buttons fs select b;
}
