-- ===== src/Browser/FolderPath.antt =====
-- `path_is_root`, `build_child_path` and `build_parent_path` of file-browser/src/main.cpp.
pub mod Parent
use i_user_apps.Common.{ℕ, Bool, false, List, [], ◌∷◌, ◌==◌, if◌then◌else◌, reverse}
use i_user_apps.Common.CString.{codes}
use i_user_apps.Browser.Text.{append_text, copy_string}

abbrev pub slash : ℕ
slash = b'/'

unfoldable pub path_is_root : List ℕ → Bool
path_is_root (c ∷ []) = c == slash
path_is_root _ = false

unfoldable pub build_child_path : List ℕ → List ℕ → ℕ → List ℕ
build_child_path base name capacity =
    let start = append_text [] capacity base in
    append_text (if path_is_root base then start else append_text start capacity (slash ∷ []))
      capacity name

-- The three steps of `build_parent_path`, on the text with its last byte first. The first drops the
-- slashes at the end, but for a byte at the start.
unfoldable pub strip_slashes : List ℕ → List ℕ
strip_slashes [] = []
strip_slashes (c ∷ []) = c ∷ []
strip_slashes (c ∷ (d ∷ rest)) =
    let more = strip_slashes (d ∷ rest) in if c == slash then more else c ∷ (d ∷ rest)

-- The second drops the last component.
unfoldable pub strip_name : List ℕ → List ℕ
strip_name [] = []
strip_name (c ∷ []) = c ∷ []
strip_name (c ∷ (d ∷ rest)) =
    let more = strip_name (d ∷ rest) in if c == slash then c ∷ (d ∷ rest) else more

-- The third drops the slash behind the parent.
unfoldable pub drop_slash : List ℕ → List ℕ
drop_slash [] = []
drop_slash (c ∷ []) = c ∷ []
drop_slash (c ∷ (d ∷ rest)) = if c == slash then d ∷ rest else c ∷ (d ∷ rest)

abbrev or_root : ℕ → List ℕ → List ℕ
or_root capacity [] = copy_string capacity (slash ∷ [])
or_root capacity (c ∷ path) = c ∷ path

unfoldable pub build_parent_path : List ℕ → ℕ → List ℕ
build_parent_path current capacity =
    or_root capacity
      (reverse (drop_slash (strip_name (strip_slashes (reverse (copy_string capacity current))))))

-- The loop of `open_parent`: what stands behind the last slash.
unfoldable pub last_component : List ℕ → List ℕ → List ℕ
last_component [] found = found
last_component (c ∷ path) found = last_component path (if c == slash then path else found)
