-- ===== src/Browser/Events/Moves.antt =====
-- The windows that navigation in file-browser/src/main.cpp leads to are valid.
use i_user_apps.Common.{
  ℕ, suc, ◌-◌, ◌≤◌, ◌≡◌, refl, subst, ◌≢◌, ◌⊎◌, inl, inr, Option, none, List, [], ◌∷◌,
  length-take_bound, All-take, arith, ◌==◌, Bool-cases, length, All,
}
use i_user_apps.Common.CString.{same_text}
use i_user_apps.Browser.Text.{copy_string}
use i_user_apps.Browser.FolderPath.{path_is_root}
use i_user_apps.Browser.State.{FileSystem, Browser, max_history, path_capacity}
use i_user_apps.Browser.Events.{push, navigate, go_back, go_forward, open_parent, open_place}
use i_user_apps.Browser.Events.Valid.{IsShort, IsValid, load_directory-IsValid}

path_cases :
    (stack : List (List ℕ))
    → (stack ≡ []) ⊎ ((path : List ℕ) × ((rest : List (List ℕ)) × (stack ≡ path ∷ rest)))
path_cases [] = inl refl
path_cases (path ∷ rest) = inr (path, (rest, refl))

copy_string-IsShort : (path : List ℕ) → IsShort (copy_string path_capacity path)
unfolding copy_string
copy_string-IsShort path = omega (arith, length-take_bound (path_capacity - 1) path)

push-IsShort :
    (stack : List (List ℕ)) (path : List ℕ) → All IsShort stack → All IsShort (push stack path)
unfolding push
push-IsShort stack path short = elim (Bool-cases (length stack == max_history)) [
  | inl full ↦ rw full (copy_string-IsShort path, All-take IsShort (max_history - 1) stack short)
  | inr room ↦ rw room (copy_string-IsShort path, short)
]

length-push :
    (stack : List (List ℕ)) (path : List ℕ)
    → length stack ≤ max_history
    → length (push stack path) ≤ max_history
unfolding push
length-push stack path bound = elim (Bool-cases (length stack == max_history)) [
  | inl full ↦ rw full (omega (arith, length-take_bound (max_history - 1) stack))
  | inr room ↦
      let fewer : length stack ≢ max_history = ground (arith, room) in
      rw room (omega (arith, bound, fewer))
]

pub navigate-IsValid :
    (fs : FileSystem) (path : List ℕ) (select : Option (List ℕ)) (b : Browser)
    → IsValid b
    → IsValid (navigate fs path select b)
unfolding navigate
navigate-IsValid fs path select b valid =
    let old = valid.history in
    let moved =
      load_directory-IsValid fs select
        (record b {
          back = push b.back b.current_path;
          forward = [];
          current_path = copy_string path_capacity path;
          search = [];
        })
        (record {
          current = copy_string-IsShort path;
          back = push-IsShort b.back b.current_path old.back;
          forward = tt;
          back_bound = length-push b.back b.current_path old.back_bound;
          forward_bound = omega arith;
        }) in
    elim (Bool-cases (same_text path b.current_path)) [
      | inl here ↦ rw here valid
      | inr away ↦ rw away moved
    ]

pub go_back-IsValid : (fs : FileSystem) (b : Browser) → IsValid b → IsValid (go_back fs b)
unfolding go_back
go_back-IsValid fs b valid = elim (path_cases b.back) [
  | inl none_left ↦ rw (go_back, none_left) valid
  | inr (path, (older, e)) ↦
      let old = valid.history in
      let back : All IsShort (path ∷ older) = subst (All IsShort) e old.back in
      let bound : suc (length older) ≤ max_history =
        subst (λ s. length s ≤ max_history) e old.back_bound in
      rw (go_back, e)
        (load_directory-IsValid fs none
          (record b {
            forward = push b.forward b.current_path;
            current_path = copy_string path_capacity path;
            back = older;
            search = [];
          })
          (record {
            current = copy_string-IsShort path;
            back = back.1;
            forward = push-IsShort b.forward b.current_path old.forward;
            back_bound = omega (arith, bound);
            forward_bound = length-push b.forward b.current_path old.forward_bound;
          }))
]

pub go_forward-IsValid : (fs : FileSystem) (b : Browser) → IsValid b → IsValid (go_forward fs b)
unfolding go_forward
go_forward-IsValid fs b valid = elim (path_cases b.forward) [
  | inl none_left ↦ rw (go_forward, none_left) valid
  | inr (path, (later, e)) ↦
      let old = valid.history in
      let forward : All IsShort (path ∷ later) = subst (All IsShort) e old.forward in
      let bound : suc (length later) ≤ max_history =
        subst (λ s. length s ≤ max_history) e old.forward_bound in
      rw (go_forward, e)
        (load_directory-IsValid fs none
          (record b {
            back = push b.back b.current_path;
            current_path = copy_string path_capacity path;
            forward = later;
            search = [];
          })
          (record {
            current = copy_string-IsShort path;
            back = push-IsShort b.back b.current_path old.back;
            forward = forward.1;
            back_bound = length-push b.back b.current_path old.back_bound;
            forward_bound = omega (arith, bound);
          }))
]

pub open_parent-IsValid : (fs : FileSystem) (b : Browser) → IsValid b → IsValid (open_parent fs b)
unfolding open_parent
open_parent-IsValid fs b valid = elim (Bool-cases (path_is_root b.current_path)) [
  | inl root ↦ rw root valid
  | inr below ↦ rw below (navigate-IsValid fs _ _ b valid)
]

pub open_place-IsValid :
    (fs : FileSystem) (row : ℕ) (b : Browser) → IsValid b → IsValid (open_place fs row b)
unfolding open_place
open_place-IsValid fs row b valid = elim (Bool-cases (row == 0)) [
  | inl root ↦ rw root (navigate-IsValid fs _ none b valid)
  | inr other ↦ rw other (navigate-IsValid fs _ none b valid)
]
