-- ===== src/Browser/Examples.antt =====
-- The theorems on file-browser/src/main.cpp at small names, folders and windows.
use i_user_apps.Common.{
  ℕ, ◌≡◌, refl, ◌↔◌, true, false, none, some, List, [], ◌∷◌, map, arith, All, Perm,
}
use i_user_apps.Common.CString.{codes}
use i_user_apps.Browser.Text.{contains_folded, FileType, DirEntry, BrowserEntry, format_size}
use i_user_apps.Browser.Text.Search.{Contains, contains_folded_iff}
use i_user_apps.Browser.Entries.{sort_entries}
use i_user_apps.Browser.Entries.Sort.{HasName, IsSorted, sort_entries-IsSorted}
use i_user_apps.Browser.FolderPath.{build_child_path, build_parent_path}
use i_user_apps.Browser.FolderPath.Parent.{build_parent_path-child}
use i_user_apps.Browser.State.{FileSystem, Browser}
use i_user_apps.Browser.Events.{Event, handle, go_back, go_forward, on_create}
use i_user_apps.Browser.Events.History.{SameHistory, go_forward-go_back}
use i_user_apps.Browser.Events.Valid.{IsValid}
use i_user_apps.Browser.Events.Reach.{Reach, Reach-IsValid}

contains_folded_iff_example :
    (contains_folded (codes "Notes") (codes "TES") ≡ true) ↔ Contains (codes "Notes") (codes "TES")
contains_folded_iff_example = contains_folded_iff (codes "Notes") (codes "TES")

abbrev plain_entry : List ℕ → FileType → BrowserEntry
plain_entry name type = record {
  dir = record { name = name; type = type };
  executable = false;
  size = 0;
}

abbrev sample_entries : List BrowserEntry
sample_entries =
    plain_entry (codes "b") FileType.regular
    ∷ plain_entry (codes "A") FileType.regular
    ∷ plain_entry (codes "z") FileType.directory
    ∷ []

-- Folders come first.
sorted_folder_first :
    map (λ e. e.dir.name) (sort_entries sample_entries) ≡ codes "z" ∷ codes "A" ∷ codes "b" ∷ []
unfolding sort_entries i_user_apps.Browser.Entries.sort_loop
    i_user_apps.Browser.Entries.insert_entry i_user_apps.Browser.Entries.entry_before
    i_user_apps.Browser.Entries.compare_names i_user_apps.Browser.Text.ascii_lower
    i_user_apps.Browser.Entries.order_chars
sorted_folder_first = refl

sample_names : All HasName sample_entries
sample_names = (
  ((omega arith, omega arith), tt),
  (((omega arith, omega arith), tt), (((omega arith, omega arith), tt), tt)),
)

sort_entries-IsSorted_example :
    IsSorted (sort_entries sample_entries) × Perm (sort_entries sample_entries) sample_entries
sort_entries-IsSorted_example = sort_entries-IsSorted sample_entries sample_names

build_parent_path-child_example :
    build_parent_path (build_child_path (codes "/b") (codes "cd") 256) 256 ≡ codes "/b"
build_parent_path-child_example =
    build_parent_path-child (codes "/b") (codes "cd") 256 (omega arith)
      ((λ e. omega (arith, e)), ((λ e. omega (arith, e)), tt)) (omega arith) (omega arith)

-- A system where each folder has a program and a folder, and no program starts.
abbrev sample_system : FileSystem
sample_system = record {
  readdir = λ path. some (
      record { name = codes "cube.exe"; type = FileType.regular }
      ∷ record { name = codes "docs"; type = FileType.directory }
      ∷ []);
  stat = λ path. some 1536;
  spawn = λ target. none;
}

abbrev sample_window : Browser
sample_window = record (on_create sample_system) {
  current_path = codes "/bin";
  back = codes "/" ∷ [];
  forward = [];
}

go_forward-go_back_example :
    SameHistory sample_window (go_forward sample_system (go_back sample_system sample_window))
go_forward-go_back_example =
    go_forward-go_back sample_system sample_system sample_window (codes "/") [] refl (omega arith)
      (omega arith) (omega arith) (omega arith)

-- The folder is opened by its row, and then the button Up is used.
abbrev sample_session : Browser
sample_session =
    handle sample_system Event.up_clicked
      (handle sample_system (Event.row_activated 0) (on_create sample_system))

Reach-IsValid_example : IsValid sample_session
Reach-IsValid_example = Reach-IsValid sample_session (
    Reach.stepped sample_system Event.up_clicked _
      (Reach.stepped sample_system (Event.row_activated 0) _ (Reach.created sample_system)))
