-- ===== src/Browser/State/Rows.antt =====
-- The rows that the window of file-browser/src/main.cpp shows: the entries that match, and no others.
use i_user_apps.Common.{
  ℕ, zero, suc, ◌+◌, ◌-◌, ◌≤◌, ◌<◌, ◌≡◌, refl, sym, ap, ◌∙◌, subst, inl, inr, true, Option, none,
  some, List, [], ◌∷◌, arith, Bool-cases, length, get_elem?, All, All-map, length-reverse,
}
use i_user_apps.Common.CString.{same_text}
use i_user_apps.Browser.Text.{BrowserEntry, DirEntry, contains_folded}
use i_user_apps.Browser.Entries.{insert_entry, sort_loop, sort_entries}
use i_user_apps.Browser.State.{
  FileSystem, max_entries, visible_rows, find_row, or_first, read_entries,
}

-- Entry `index`, counted from `start`, contains the text text.
abbrev pub ShowsFrom : List ℕ → List BrowserEntry → ℕ → ℕ → Type 0
ShowsFrom text entries start index =
    (start ≤ index)
    × ((e : BrowserEntry) × (get_elem? entries (index - start) ≡ some e)
        × (contains_folded e.dir.name text ≡ true))

shows_later :
    (text : List ℕ) (e : BrowserEntry) (entries : List BrowserEntry) (start index : ℕ)
    → ShowsFrom text entries (start + 1) index
    → ShowsFrom text (e ∷ entries) start index
shows_later text e entries start index (lo, (found, at, hit)) =
    let n : index - start ≡ suc (index - (start + 1)) = omega (arith, lo) in
    (omega (arith, lo), (found, ap (get_elem? (e ∷ entries)) n ∙ at, hit))

pub visible_rows-Shows :
    (text : List ℕ) (entries : List BrowserEntry) (start : ℕ)
    → All (ShowsFrom text entries start) (visible_rows text entries start)
unfolding visible_rows
visible_rows-Shows text [] start = tt
visible_rows-Shows text (e ∷ entries) start =
    let later =
      All-map (ShowsFrom text entries (start + 1)) (ShowsFrom text (e ∷ entries) start)
        (visible_rows text entries (start + 1)) (shows_later text e entries start)
        (visible_rows-Shows text entries (start + 1)) in
    elim (Bool-cases (contains_folded e.dir.name text)) [
      | inl hit ↦
          let zero_here : start - start ≡ 0 = omega arith in
          rw hit ((omega arith, (e, ap (get_elem? (e ∷ entries)) zero_here, hit)), later)
      | inr miss ↦ rw miss later
    ]

-- Each is smaller than all that follow, so none stands twice.
abbrev pub IsAscending : List ℕ → Type 0
IsAscending [] = Unit {0}
IsAscending (row ∷ rows) = All (λ later. row < later) rows × IsAscending rows

pub visible_rows-IsAscending :
    (text : List ℕ) (entries : List BrowserEntry) (start : ℕ)
    → IsAscending (visible_rows text entries start)
unfolding visible_rows
visible_rows-IsAscending text [] start = tt
visible_rows-IsAscending text (e ∷ entries) start =
    let rest = visible_rows-IsAscending text entries (start + 1) in
    elim (Bool-cases (contains_folded e.dir.name text)) [
      | inl hit ↦ rw hit (
        All-map (ShowsFrom text entries (start + 1)) (λ later. start < later)
            (visible_rows text entries (start + 1)) (λ later shows. omega (arith, shows.0))
            (visible_rows-Shows text entries (start + 1)),
        rest,
      )
      | inr miss ↦ rw miss rest
    ]

pub visible_rows_complete :
    (text : List ℕ) (entries : List BrowserEntry) (start i : ℕ) (e : BrowserEntry)
    → get_elem? entries i ≡ some e
    → contains_folded e.dir.name text ≡ true
    → (row : ℕ) × (get_elem? (visible_rows text entries start) row ≡ some (start + i))
unfolding visible_rows
visible_rows_complete text [] start i e at hit = absurd cc
visible_rows_complete text (x ∷ entries) start zero e at hit =
    let same : x ≡ e = cc in
    let hit' : contains_folded x.dir.name text ≡ true =
      subst (λ t. contains_folded t.dir.name text ≡ true) (sym same) hit in
    let none_added : start ≡ start + 0 = omega arith in (0, rw hit' (ap some none_added))
visible_rows_complete text (x ∷ entries) start (suc i) e at hit =
    let (row, found) = visible_rows_complete text entries (start + 1) i e at hit in
    let same : start + 1 + i ≡ start + suc i = omega arith in
    elim (Bool-cases (contains_folded x.dir.name text)) [
      | inl here ↦ (suc row, rw here (found ∙ ap some same))
      | inr skipped ↦ (row, rw skipped (found ∙ ap some same))
    ]

-- The selected row is one of those that are shown.
abbrev pub InRange : Option ℕ → ℕ → Type 0
InRange none count = Unit {0}
InRange (some row) count = row < count

pub find_row-InRange :
    (text name : List ℕ) (entries : List BrowserEntry) (start row : ℕ)
    → InRange (find_row text name entries row) (row + length (visible_rows text entries start))
unfolding find_row visible_rows
find_row-InRange text name [] start row = tt
find_row-InRange text name (e ∷ entries) start row =
    let rest = length (visible_rows text entries (start + 1)) in
    let next = find_row-InRange text name entries (start + 1) (row + 1) in
    let past = find_row-InRange text name entries (start + 1) row in
    let moved : row + 1 + rest ≡ row + suc rest = omega arith in
    elim (Bool-cases (contains_folded e.dir.name text)) [
      | inl hit ↦ elim (Bool-cases (same_text e.dir.name name)) [
        | inl same ↦ rw (hit, same) (omega arith)
        | inr other ↦
            rw (hit, other) (subst (InRange (find_row text name entries (row + 1))) moved next)
      ]
      | inr miss ↦ rw miss past
    ]

pub or_first-InRange :
    (found : Option ℕ) (visible : List ℕ)
    → InRange found (length visible)
    → InRange (or_first found visible) (length visible)
or_first-InRange (some row) visible h = h
or_first-InRange none [] h = tt
or_first-InRange none (index ∷ visible) h = omega arith

pub read_entries-bound :
    (fs : FileSystem) (path : List ℕ) (found : List DirEntry) (count : ℕ)
    → count ≤ max_entries
    → count + length (read_entries fs path found count) ≤ max_entries
unfolding read_entries
read_entries-bound fs path [] count h = omega (arith, h)
read_entries-bound fs path (dir ∷ found) count h =
    ground
      (arith, read_entries-bound fs path found count, read_entries-bound fs path found (count + 1))

length-insert_entry :
    (moving : BrowserEntry) (before : List BrowserEntry)
    → length (insert_entry moving before) ≡ suc (length before)
unfolding insert_entry
length-insert_entry moving [] = refl
length-insert_entry moving (e ∷ before) = ground (arith, length-insert_entry moving before)

length-sort_loop :
    (sorted rest : List BrowserEntry) → length (sort_loop sorted rest) ≡ length sorted + length rest
unfolding sort_loop
length-sort_loop sorted [] = omega arith
length-sort_loop sorted (moving ∷ rest) =
    omega
      (arith, length-sort_loop (insert_entry moving sorted) rest, length-insert_entry moving sorted)

pub length-sort_entries :
    (entries : List BrowserEntry) → length (sort_entries entries) ≡ length entries
unfolding sort_entries
length-sort_entries entries =
    length-reverse (sort_loop [] entries) ∙ length-sort_loop [] entries ∙ omega arith
