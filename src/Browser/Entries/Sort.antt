-- ===== src/Browser/Entries/Sort.antt =====
-- `sort_entries` of file-browser/src/main.cpp sorts.
use i_user_apps.Common.{
  ◌≡◌, sym, subst, inl, inr, false, List, [], ◌∷◌, ◌++◌, Bool-cases, All, All-append, append_nil,
  reverse, Perm,
}
use mathlib.Core.List.Perm
use mathlib.Core.List.{perm_middle, reverse_perm, reverse-cons}
use i_user_apps.Browser.Text.{BrowserEntry}
use i_user_apps.Browser.Entries.{entry_before, insert_entry, sort_loop, sort_entries}
use i_user_apps.Browser.Entries.Belongs.{BelongsBefore, entry_before-BelongsBefore}
use i_user_apps.Browser.Entries.Order.{IsText, entry_before-asymm, entry_before-neg_trans}

abbrev pub HasName : BrowserEntry → Type 0
HasName e = IsText e.dir.name

-- None of the entries belongs before an entry that stands in front of it.
abbrev pub IsSorted : List BrowserEntry → Type 0
IsSorted [] = Unit {0}
IsSorted (e ∷ entries) = All (λ later. ¬ BelongsBefore later e) entries × IsSorted entries

-- The same by the test of the source.
abbrev IsByTest : List BrowserEntry → Type 0
IsByTest [] = Unit {0}
IsByTest (e ∷ entries) = All (λ later. entry_before later e ≡ false) entries × IsByTest entries

-- The same, the last entry first.
abbrev IsSortedBack : List BrowserEntry → Type 0
IsSortedBack [] = Unit {0}
IsSortedBack (e ∷ before) =
    All (λ earlier. entry_before e earlier ≡ false) before × IsSortedBack before

insert_entry-All {κ} :
    (P : BrowserEntry → Type κ) (moving : BrowserEntry) (before : List BrowserEntry)
    → P moving
    → All P before
    → All P (insert_entry moving before)
unfolding insert_entry
insert_entry-All P moving [] p all = (p, tt)
insert_entry-All P moving (e ∷ before) p all = elim (Bool-cases (entry_before moving e)) [
  | inl further ↦ rw further (all.0, insert_entry-All P moving before p all.1)
  | inr here ↦ rw here (p, all)
]

insert_entry-IsSortedBack :
    (moving : BrowserEntry) (before : List BrowserEntry)
    → HasName moving
    → All HasName before
    → IsSortedBack before
    → IsSortedBack (insert_entry moving before)
unfolding insert_entry
insert_entry-IsSortedBack moving [] name names sorted = (tt, tt)
insert_entry-IsSortedBack moving (e ∷ before) name names sorted =
    elim (Bool-cases (entry_before moving e)) [
      | inl further ↦
          let apart = entry_before-asymm moving e further in
          rw further (
            insert_entry-All (λ earlier. entry_before e earlier ≡ false) moving before apart
                sorted.0,
            insert_entry-IsSortedBack moving before name names.1 sorted.1,
          )
      | inr here ↦ rw here ((here, above moving e before here name names sorted.0), sorted)
    ]
  where
    above :
        (m e : BrowserEntry) (l : List BrowserEntry)
        → entry_before m e ≡ false
        → HasName m
        → All HasName (e ∷ l)
        → All (λ earlier. entry_before e earlier ≡ false) l
        → All (λ earlier. entry_before m earlier ≡ false) l
    above m e [] h name names old = tt
    above m e (x ∷ l) h name names old = (
      entry_before-neg_trans m e x name names.0 names.1.0 h old.0,
      above m e l h name (names.0, names.1.1) old.1,
    )

insert_entry-perm :
    (moving : BrowserEntry) (before : List BrowserEntry)
    → Perm (insert_entry moving before) (moving ∷ before)
unfolding insert_entry
insert_entry-perm moving [] = Perm.refl _
insert_entry-perm moving (e ∷ before) = elim (Bool-cases (entry_before moving e)) [
  | inl further ↦
      rw further
        (Perm.trans (Perm.cons e (insert_entry-perm moving before)) (Perm.swap moving e before))
  | inr here ↦ rw here (Perm.refl _)
]

sort_loop-IsSortedBack :
    (sorted rest : List BrowserEntry)
    → All HasName sorted
    → All HasName rest
    → IsSortedBack sorted
    → IsSortedBack (sort_loop sorted rest)
unfolding sort_loop
sort_loop-IsSortedBack sorted [] names others ordered = ordered
sort_loop-IsSortedBack sorted (moving ∷ rest) names others ordered =
    sort_loop-IsSortedBack (insert_entry moving sorted) rest
      (insert_entry-All HasName moving sorted others.0 names) others.1
      (insert_entry-IsSortedBack moving sorted others.0 names ordered)

sort_loop-perm : (sorted rest : List BrowserEntry) → Perm (sort_loop sorted rest) (sorted ++ rest)
unfolding sort_loop
sort_loop-perm sorted [] = subst (Perm sorted) (sym (append_nil sorted)) (Perm.refl _)
sort_loop-perm sorted (moving ∷ rest) =
    Perm.trans (sort_loop-perm (insert_entry moving sorted) rest) (
      Perm.trans (Perm.append_right rest (insert_entry-perm moving sorted))
        (Perm.symm (perm_middle sorted rest)))

All-reverse {κ} : (P : BrowserEntry → Type κ) (l : List BrowserEntry) → All P l → All P (reverse l)
All-reverse P [] all = tt
All-reverse P (e ∷ l) all =
    subst (All P) (sym (reverse-cons e l))
      (All-append P (reverse l) (e ∷ []) (All-reverse P l all.1) (all.0, tt))

IsByTest-append :
    (l : List BrowserEntry) (e : BrowserEntry)
    → IsByTest l
    → All (λ earlier. entry_before e earlier ≡ false) l
    → IsByTest (l ++ (e ∷ []))
IsByTest-append [] e sorted above = (tt, tt)
IsByTest-append (x ∷ l) e sorted above = (
  All-append (λ later. entry_before later x ≡ false) l (e ∷ []) sorted.0 (above.0, tt),
  IsByTest-append l e sorted.1 above.1,
)

reverse-IsByTest : (l : List BrowserEntry) → IsSortedBack l → IsByTest (reverse l)
reverse-IsByTest [] sorted = tt
reverse-IsByTest (e ∷ l) sorted = subst IsByTest (sym (reverse-cons e l)) (
    IsByTest-append (reverse l) e (reverse-IsByTest l sorted.1)
      (All-reverse (λ earlier. entry_before e earlier ≡ false) l sorted.0))

later-IsSorted :
    (e : BrowserEntry) (entries : List BrowserEntry)
    → HasName e
    → All HasName entries
    → All (λ later. entry_before later e ≡ false) entries
    → All (λ later. ¬ BelongsBefore later e) entries
later-IsSorted e [] name names tested = tt
later-IsSorted e (later ∷ entries) name names tested = (
  entry_before-BelongsBefore later e names.0 name tested.0,
  later-IsSorted e entries name names.1 tested.1,
)

IsByTest-IsSorted :
    (entries : List BrowserEntry) → All HasName entries → IsByTest entries → IsSorted entries
IsByTest-IsSorted [] names sorted = tt
IsByTest-IsSorted (e ∷ entries) names sorted =
    (later-IsSorted e entries names.0 names.1 sorted.0, IsByTest-IsSorted entries names.1 sorted.1)

sort_loop-All {κ} :
    (P : BrowserEntry → Type κ) (sorted rest : List BrowserEntry)
    → All P sorted
    → All P rest
    → All P (sort_loop sorted rest)
unfolding sort_loop
sort_loop-All P sorted [] all others = all
sort_loop-All P sorted (moving ∷ rest) all others =
    sort_loop-All P (insert_entry moving sorted) rest
      (insert_entry-All P moving sorted others.0 all) others.1

-- Sorting entries whose names are texts puts none behind an entry that it belongs before, and keeps
-- all of them: folders belong before files, and of two folders or two files the one whose name is less,
-- by its letters in their order as a signed `char`, without the case of ASCII letters.
pub sort_entries-IsSorted :
    (entries : List BrowserEntry)
    → All HasName entries
    → IsSorted (sort_entries entries) × Perm (sort_entries entries) entries
unfolding sort_entries
sort_entries-IsSorted entries names =
    let back = sort_loop [] entries in
    let named = All-reverse HasName back (sort_loop-All HasName [] entries tt names) in
    (
      IsByTest-IsSorted (reverse back) named
          (reverse-IsByTest back (sort_loop-IsSortedBack [] entries tt names tt)),
      Perm.trans (reverse_perm back) (sort_loop-perm [] entries),
    )
