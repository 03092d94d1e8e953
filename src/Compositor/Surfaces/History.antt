-- ===== src/Compositor/Surfaces/History.antt =====
-- For how long the surfaces in the cache of graphics-compositor/src/surface.cpp have not been shown.
use i_user_apps.Common.{
  ℕ, zero, suc, ◌≤◌, ◌≡◌, refl, sym, ap, ◌∙◌, subst, ◌≢◌, inl, inr, true, false, some, List, [],
  ◌∷◌, arith, ltb, ◌==◌, Bool-cases, get_elem?, get_or, add32, All-get_elem?, some_injective,
}
use i_user_apps.Compositor.Window.{Geometry, WindowInfo}
use i_user_apps.Compositor.Surfaces.{
  SurfaceInfo, SurfaceCacheEntry, Cache, empty_entry, surface_forget_lists, slot_for, committed,
  remember_surface, forget_entry, forget_unshown_surfaces, is_shown, clear_surface_dirty_flags,
}
use i_user_apps.Compositor.Surfaces.Slots.{IsLive, slot_for_live, slot_for-bound}
use i_user_apps.Compositor.Surfaces.Keeps.{IsValid, set_cases}

-- What happens to a cache: a surface is committed, or a list of windows comes.
pub data Event : Type 0 where
  committed_one : (id : ℕ) → Event
  listed_windows : (windows : List WindowInfo) → Event

-- So many lists in a row, up to now and since the last commit of a surface, did not show it. The last
-- event stands first.
pub data Missed (id : ℕ) : List Event → ℕ → Type 0 where
  no_events : Missed id [] 0
  its_commit :
      (other : ℕ) (history : List Event) → other ≡ id → Missed id (committed_one other ∷ history) 0
  another_commit :
      (other n : ℕ) (history : List Event)
      → other ≢ id
      → Missed id history n
      → Missed id (committed_one other ∷ history) n
  shown :
      (windows : List WindowInfo) (history : List Event) (i : ℕ) (window : WindowInfo)
      → get_elem? windows i ≡ some window
      → window.surface_id ≡ id
      → Missed id (listed_windows windows ∷ history) 0
  unshown :
      (windows : List WindowInfo) (history : List Event) (n : ℕ)
      → ((i : ℕ) (window : WindowInfo) → get_elem? windows i ≡ some window → window.surface_id ≢ id)
      → Missed id history n
      → Missed id (listed_windows windows ∷ history) (suc n)

-- Each entry in use counts the lists that its surface was missing from.
abbrev pub IsCounted : List Event → Cache → Type 0
IsCounted history cache =
    (i : ℕ) (entry : SurfaceCacheEntry)
    → get_elem? cache i ≡ some entry
    → IsLive entry
    → Missed entry.id history entry.unshown_lists

pub remember_surface-IsCounted :
    (g : Geometry) (history : List Event) (cache : Cache) (info : SurfaceInfo)
    → IsValid cache
    → IsCounted history cache
    → IsCounted (committed_one info.id ∷ history) (remember_surface g cache info)
unfolding remember_surface committed
remember_surface-IsCounted g history cache info valid counted i a at live =
    let slot = slot_for cache info.id in
    let v = committed g info (get_or cache slot empty_entry) in
    let inside = slot_for-bound cache info.id (omega (arith, valid.size)) in
    elim (set_cases cache slot i v a inside at) [
      | inl (here, new) ↦
          subst (λ e. Missed e.id (committed_one info.id ∷ history) e.unshown_lists) (sym new)
            (its_commit info.id history refl)
      | inr (away, old) ↦
          let apart : info.id ≢ a.id = λ same.
            away (slot_for_live cache i a valid.unique old live ∙ ap (slot_for cache) (sym same)) in
          another_commit info.id a.unshown_lists history apart (counted i a old live)
    ]

is_shown-true :
    (windows : List WindowInfo) (id : ℕ)
    → is_shown windows id ≡ true
    → (i : ℕ) × (window : WindowInfo) × (get_elem? windows i ≡ some window)
      × (window.surface_id ≡ id)
unfolding is_shown
is_shown-true [] id e = absurd cc
is_shown-true (window ∷ windows) id e = elim (Bool-cases (window.surface_id == id)) [
  | inl here ↦ (0, window, refl, ground (arith, here))
  | inr other ↦
      let (i, found, at, same) = is_shown-true windows id (rw other at e) in
      (suc i, found, at, same)
]

is_shown-false :
    (windows : List WindowInfo) (id : ℕ)
    → is_shown windows id ≡ false
    → (i : ℕ) (window : WindowInfo) → get_elem? windows i ≡ some window
    → window.surface_id ≢ id
unfolding is_shown
is_shown-false [] id e i window at same = absurd cc
is_shown-false (first ∷ windows) id e zero window at same =
    let here : first.surface_id ≡ id =
      ap (λ w. w.surface_id) (some_injective first window at) ∙ same in
    absurd (ground (arith, e, here))
is_shown-false (first ∷ windows) id e (suc i) window at same =
    elim (Bool-cases (first.surface_id == id)) [
      | inl here ↦ absurd (ground (arith, e, here))
      | inr other ↦ is_shown-false windows id (rw other at e) i window at same
    ]

-- An entry that is in use after a list counts it.
forget_entry-Missed :
    (windows : List WindowInfo) (history : List Event) (entry : SurfaceCacheEntry)
    → entry.unshown_lists ≤ surface_forget_lists
    → (IsLive entry → Missed entry.id history entry.unshown_lists)
    → IsLive (forget_entry windows entry)
    → Missed
        (forget_entry windows entry).id
        (listed_windows windows ∷ history)
        (forget_entry windows entry).unshown_lists
unfolding forget_entry
forget_entry-Missed windows history entry kept missed live =
    let Counts =
      λ (e : SurfaceCacheEntry). Missed e.id (listed_windows windows ∷ history) e.unshown_lists in
    elim (Bool-cases entry.valid) [
      | inr free ↦
          let same : forget_entry windows entry ≡ entry = rw (forget_entry, free) refl in
          absurd (ground (arith, free, (subst IsLive same live).0))
      | inl valid ↦ elim (Bool-cases (is_shown windows entry.id)) [
        | inl seen ↦
            let same : forget_entry windows entry ≡ record entry { unshown_lists = 0 } =
              simp (forget_entry, valid, seen) refl in
            let (i, window, at, its) = is_shown-true windows entry.id seen in
            subst Counts (sym same) (shown windows history i window at its)
        | inr away ↦ elim (Bool-cases (ltb surface_forget_lists (add32 entry.unshown_lists 1))) [
          | inl many ↦
              let gone : forget_entry windows entry ≡ empty_entry =
                simp (forget_entry, valid, away, many) refl in
              absurd ((subst IsLive gone live).1 refl)
          | inr few ↦
              let more : add32 entry.unshown_lists 1 ≡ suc entry.unshown_lists =
                omega (arith, kept) in
              let same : forget_entry windows entry
                  ≡ record entry { unshown_lists = add32 entry.unshown_lists 1 } =
                simp (forget_entry, valid, away, few) refl in
              let before = missed ((subst IsLive same live).0, (subst IsLive same live).1) in
              subst Counts (sym same) (
                subst (λ n. Missed entry.id (listed_windows windows ∷ history) n) (sym more)
                  (unshown windows history entry.unshown_lists
                    (is_shown-false windows entry.id away) before))
        ]
      ]
    ]

forget_all-IsCounted :
    (history : List Event) (cache : Cache) (windows : List WindowInfo)
    → ((i : ℕ) (entry : SurfaceCacheEntry)
        → get_elem? cache i ≡ some entry
        → entry.unshown_lists ≤ surface_forget_lists)
    → IsCounted history cache
    → IsCounted (listed_windows windows ∷ history) (forget_unshown_surfaces cache windows)
unfolding forget_unshown_surfaces
forget_all-IsCounted history [] windows kept counted i a at live = absurd cc
forget_all-IsCounted history (entry ∷ cache) windows kept counted zero a at live =
    let same : forget_entry windows entry ≡ a = some_injective _ _ at in
    subst (λ e. Missed e.id (listed_windows windows ∷ history) e.unshown_lists) same
      (forget_entry-Missed windows history entry (kept 0 entry refl) (counted 0 entry refl)
        (subst IsLive (sym same) live))
forget_all-IsCounted history (entry ∷ cache) windows kept counted (suc i) a at live =
    forget_all-IsCounted history cache windows (λ k e. kept (suc k) e) (λ k e. counted (suc k) e) i
      a at live

pub forget-IsCounted :
    (history : List Event) (cache : Cache) (windows : List WindowInfo)
    → IsValid cache
    → IsCounted history cache
    → IsCounted (listed_windows windows ∷ history) (forget_unshown_surfaces cache windows)
forget-IsCounted history cache windows valid counted =
    forget_all-IsCounted history cache windows
      (λ k e at.
        All-get_elem? (λ entry. entry.unshown_lists ≤ surface_forget_lists) cache k e valid.kept at)
      counted

pub clear-IsCounted :
    (history : List Event) (cache : Cache)
    → IsCounted history cache
    → IsCounted history (clear_surface_dirty_flags cache)
unfolding clear_surface_dirty_flags
clear-IsCounted history [] counted i a at live = absurd cc
clear-IsCounted history (entry ∷ cache) counted zero a at live =
    let same = some_injective _ _ at in
    subst (λ e. Missed e.id history e.unshown_lists) same
      (counted 0 entry refl (subst IsLive (sym same) live))
clear-IsCounted history (entry ∷ cache) counted (suc i) a at live =
    clear-IsCounted history cache (λ k e. counted (suc k) e) i a at live
