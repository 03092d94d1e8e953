-- ===== src/Browser/Events/History.antt =====
-- Back and Forward of file-browser/src/main.cpp undo each other.
use i_user_apps.Common.{
  ℕ, ◌<◌, ◌≡◌, refl, sym, ap, ◌∙◌, inl, inr, false, Option, none, List, [], ◌∷◌, arith, ◌==◌,
  Bool-cases, length,
}
use i_user_apps.Browser.Text.{copy_string}
use i_user_apps.Browser.FolderPath.Parent.{copy_string-fits}
use i_user_apps.Browser.State.{
  FileSystem, Browser, max_history, path_capacity, load_directory, apply_filter, show_status,
  set_message, sync_place, is_none,
}
use i_user_apps.Browser.Events.{push, go_back, go_forward}

-- Two windows are at the same point of the same history.
pub record SameHistory (b u : Browser) : Type 0 where
  pub current_path : u.current_path ≡ b.current_path
  pub back : u.back ≡ b.back
  pub forward : u.forward ≡ b.forward

apply_filter-SameHistory :
    (select : Option (List ℕ)) (b : Browser) → SameHistory b (apply_filter select b)
unfolding apply_filter show_status
apply_filter-SameHistory select b = record { current_path = refl; back = refl; forward = refl }

pub load_directory-SameHistory :
    (fs : FileSystem) (select : Option (List ℕ)) (b : Browser)
    → SameHistory b (load_directory fs select b)
unfolding load_directory sync_place apply_filter show_status set_message
load_directory-SameHistory fs select b = elim (Bool-cases (is_none (fs.readdir b.current_path))) [
  | inl failed ↦ ground (arith, failed)
  | inr found ↦ ground (arith, found)
]

SameHistory-trans : (a b c : Browser) → SameHistory a b → SameHistory b c → SameHistory a c
SameHistory-trans a b c p q = record {
  current_path = q.current_path ∙ p.current_path;
  back = q.back ∙ p.back;
  forward = q.forward ∙ p.forward;
}

push-fits :
    (stack : List (List ℕ)) (path : List ℕ)
    → length stack < max_history
    → length path < path_capacity
    → push stack path ≡ path ∷ stack
unfolding push
push-fits stack path room short =
    let whole = copy_string-fits path_capacity path short in
    let not_full : (length stack == max_history) ≡ false = ground arith in rw (whole, not_full)

-- A window that has moved on one path from a stack to the other.
abbrev moved_back : Browser → List ℕ → List (List ℕ) → Browser
moved_back b path older = record b {
  forward = push b.forward b.current_path;
  current_path = copy_string path_capacity path;
  back = older;
  search = [];
}

abbrev moved_forward : Browser → List ℕ → List (List ℕ) → Browser
moved_forward b path later = record b {
  back = push b.back b.current_path;
  current_path = copy_string path_capacity path;
  forward = later;
  search = [];
}

go_back-SameHistory :
    (fs : FileSystem) (b : Browser) (path : List ℕ) (older : List (List ℕ))
    → b.back ≡ path ∷ older
    → SameHistory (moved_back b path older) (go_back fs b)
unfolding go_back
go_back-SameHistory fs b path older e =
    rw (go_back, e) (load_directory-SameHistory fs none (moved_back b path older))

go_forward-SameHistory :
    (fs : FileSystem) (b : Browser) (path : List ℕ) (later : List (List ℕ))
    → b.forward ≡ path ∷ later
    → SameHistory (moved_forward b path later) (go_forward fs b)
unfolding go_forward
go_forward-SameHistory fs b path later e =
    rw (go_forward, e) (load_directory-SameHistory fs none (moved_forward b path later))

-- Back and then Forward lead to the same folder with the same paths on both stacks, if there is a
-- path to go back to, all paths fit in their arrays, and the stacks are not full.
pub go_forward-go_back :
    (fs gs : FileSystem) (b : Browser) (path : List ℕ) (older : List (List ℕ))
    → b.back ≡ path ∷ older
    → length path < path_capacity
    → length b.current_path < path_capacity
    → length older < max_history
    → length b.forward < max_history
    → SameHistory b (go_forward gs (go_back fs b))
go_forward-go_back fs gs b path older e short here room_back room_forward =
    let first = go_back-SameHistory fs b path older e in
    let whole = copy_string-fits path_capacity path short in
    let pushed : (go_back fs b).forward ≡ b.current_path ∷ b.forward =
      first.forward ∙ push-fits b.forward b.current_path room_forward here in
    let second = go_forward-SameHistory gs (go_back fs b) b.current_path b.forward pushed in
    let at : (go_back fs b).current_path ≡ path = first.current_path ∙ whole in
    record {
      current_path = second.current_path ∙ copy_string-fits path_capacity b.current_path here;
      back =
          second.back
          ∙ ap (λ s. push s (go_back fs b).current_path) first.back
          ∙ ap (push older) at
          ∙ push-fits older path room_back short
          ∙ sym e;
      forward = second.forward;
    }
