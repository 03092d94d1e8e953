-- ===== src/Compositor/Surfaces/Lists.antt =====
-- How long the surface cache of graphics-compositor/src/surface.cpp keeps a surface that no window
-- shows.
use i_user_apps.Compositor.Surfaces.Keeps.{IsValid, forget-IsValid}
use i_user_apps.Common.{
  ℕ, zero, suc, ◌+◌, ◌≤◌, ◌<◌, ◌≡◌, refl, sym, ap, ◌∙◌, subst, ◌≢◌, inl, inr, true, false, none,
  some, List, [], ◌∷◌, arith, ltb, Bool-cases, Option-cases, length, get_elem?, get_or, All, add32,
  get_elem?-set, All-get_elem?, some_injective,
}
use i_user_apps.Compositor.Window.{Geometry, WindowInfo}
use i_user_apps.Compositor.Surfaces.{
  SurfaceInfo, SurfaceCacheEntry, Cache, empty_entry, surface_forget_lists, slot_for, committed,
  remember_surface, forget_entry, forget_unshown_surfaces, is_shown, holds, find_surface_cache,
}
use i_user_apps.Compositor.Surfaces.Slots.{
  slot_for_live, slot_for_found, slot_for-bound, find_surface_cache_live, find_surface_cache-some,
}
use i_user_apps.Compositor.Surfaces.Reach.{remember_surface-IsValid}

-- The calls of `forget_unshown_surfaces` on the lists of windows that follow each other.
abbrev pub forget_lists : Cache → List (List WindowInfo) → Cache
forget_lists cache [] = cache
forget_lists cache (windows ∷ lists) = forget_lists (forget_unshown_surfaces cache windows) lists

forget_lists-IsValid :
    (lists : List (List WindowInfo)) (cache : Cache)
    → IsValid cache
    → IsValid (forget_lists cache lists)
forget_lists-IsValid [] cache valid = valid
forget_lists-IsValid (windows ∷ lists) cache valid =
    forget_lists-IsValid lists (forget_unshown_surfaces cache windows)
      (forget-IsValid cache windows valid)

forget-get_elem? :
    (cache : Cache) (windows : List WindowInfo) (i : ℕ) (entry : SurfaceCacheEntry)
    → get_elem? cache i ≡ some entry
    → get_elem? (forget_unshown_surfaces cache windows) i ≡ some (forget_entry windows entry)
unfolding forget_unshown_surfaces
forget-get_elem? [] windows i entry at = absurd cc
forget-get_elem? (x ∷ cache) windows zero entry at =
    ap (λ e. some (forget_entry windows e)) (some_injective x entry at)
forget-get_elem? (x ∷ cache) windows (suc i) entry at = forget-get_elem? cache windows i entry at

forget_entry-stays :
    (windows : List WindowInfo) (entry : SurfaceCacheEntry)
    → entry.valid ≡ true
    → entry.unshown_lists < surface_forget_lists
    → (u : ℕ) × ((u ≤ entry.unshown_lists + 1)
        × (forget_entry windows entry ≡ record entry { unshown_lists = u }))
unfolding forget_entry
forget_entry-stays windows entry valid few = elim (Bool-cases (is_shown windows entry.id)) [
  | inl shown ↦ (0, (omega arith, simp (forget_entry, valid, shown) refl))
  | inr unshown ↦
      let below : ltb surface_forget_lists (add32 entry.unshown_lists 1) ≡ false =
        ground (arith, few) in
      (
        add32 entry.unshown_lists 1,
        (omega (arith, few), simp (forget_entry, valid, unshown, below) refl),
      )
]

forget_lists-stays :
    (lists : List (List WindowInfo)) (cache : Cache) (i : ℕ) (entry : SurfaceCacheEntry)
    → get_elem? cache i ≡ some entry
    → entry.valid ≡ true
    → entry.unshown_lists + length lists ≤ surface_forget_lists
    → (u : ℕ) × (get_elem? (forget_lists cache lists) i ≡ some (record entry { unshown_lists = u }))
forget_lists-stays [] cache i entry at valid few = (entry.unshown_lists, at)
forget_lists-stays (windows ∷ lists) cache i entry at valid few =
    let (u, (bound, same)) = forget_entry-stays windows entry valid (omega (arith, few)) in
    let next = forget-get_elem? cache windows i entry at ∙ ap some same in
    forget_lists-stays lists (forget_unshown_surfaces cache windows) i
      (record entry { unshown_lists = u }) next valid (omega (arith, few, bound))

-- The cache answers for this surface with this commit.
pub record Answers (cache : Cache) (info : SurfaceInfo) : Type 0 where
  pub slot : ℕ
  pub entry : SurfaceCacheEntry
  pub found : find_surface_cache cache info.id ≡ some slot
  pub at : get_elem? cache slot ≡ some entry
  pub latest : entry.info ≡ info

-- A surface that is committed is found with what was committed, also when up to eight lists of
-- windows follow that do not show it: a program may commit a surface before its window has it.
pub remember_surface-Answers :
    (g : Geometry) (cache : Cache) (info : SurfaceInfo) (lists : List (List WindowInfo))
    → IsValid cache
    → info.id ≢ 0
    → length lists ≤ surface_forget_lists
    → Answers (forget_lists (remember_surface g cache info) lists) info
unfolding remember_surface committed
remember_surface-Answers g cache info lists valid positive few =
    let slot = slot_for cache info.id in
    let v = committed g info (get_or cache slot empty_entry) in
    let inside = slot_for-bound cache info.id (omega (arith, valid.size)) in
    let later = forget_lists (remember_surface g cache info) lists in
    let sound = forget_lists-IsValid lists _ (remember_surface-IsValid g cache info valid) in
    let (u, at) =
      forget_lists-stays lists (remember_surface g cache info) slot v
        (get_elem?-set cache slot v inside) refl (omega (arith, few)) in
    let (j, found) = find_surface_cache_live later slot _ at (refl, positive) in
    let here = slot_for_live later slot _ sound.unique at (refl, positive) in
    record {
      slot = slot;
      entry = record v { unshown_lists = u };
      found = found ∙ ap some (sym (here ∙ slot_for_found later info.id j found));
      at = at;
      latest = refl;
    }

-- The entries of this surface were missing from the last `n` lists at least.
abbrev Missing : ℕ → ℕ → Cache → Type 0
Missing id n cache = All (λ entry. holds id entry ≡ true → n ≤ entry.unshown_lists) cache

forget_entry-missing :
    (windows : List WindowInfo) (id n : ℕ) (entry : SurfaceCacheEntry)
    → is_shown windows id ≡ false
    → entry.unshown_lists ≤ surface_forget_lists
    → (holds id entry ≡ true → n ≤ entry.unshown_lists)
    → holds id (forget_entry windows entry) ≡ true
    → suc n ≤ (forget_entry windows entry).unshown_lists
unfolding forget_entry
forget_entry-missing windows id n entry unshown kept missing held =
    let held_as : (e : SurfaceCacheEntry) → forget_entry windows entry ≡ e → holds id e ≡ true =
      λ e same. subst (λ t. holds id t ≡ true) same held in
    elim (Bool-cases entry.valid) [
      | inr free ↦
          let mine = held_as entry (rw (forget_entry, free) refl) in
          absurd (ground (arith, mine, free))
      | inl valid ↦ elim (Bool-cases (is_shown windows entry.id)) [
        | inl shown ↦
            let mine =
              held_as (record entry { unshown_lists = 0 })
                (simp (forget_entry, valid, shown) refl) in
            let same : entry.id ≡ id = ground (arith, mine) in
            let hidden : is_shown windows entry.id ≡ false = ap (is_shown windows) same ∙ unshown in
            absurd (ground (arith, shown, hidden))
        | inr away ↦ elim (Bool-cases (ltb surface_forget_lists (add32 entry.unshown_lists 1))) [
          | inl many ↦
              let mine = held_as empty_entry (simp (forget_entry, valid, away, many) refl) in
              absurd cc
          | inr few ↦
              let more = add32 entry.unshown_lists 1 in
              let same : forget_entry windows entry ≡ record entry { unshown_lists = more } =
                simp (forget_entry, valid, away, few) refl in
              let before = missing (held_as (record entry { unshown_lists = more }) same) in
              subst (λ e. suc n ≤ e.unshown_lists) (sym same) (omega (arith, before, kept))
        ]
      ]
    ]

forget-Missing :
    (windows : List WindowInfo) (id n : ℕ) (cache : Cache)
    → is_shown windows id ≡ false
    → All (λ entry. entry.unshown_lists ≤ surface_forget_lists) cache
    → Missing id n cache
    → Missing id (suc n) (forget_unshown_surfaces cache windows)
unfolding forget_unshown_surfaces
forget-Missing windows id n [] unshown kept missing = tt
forget-Missing windows id n (entry ∷ cache) unshown kept missing = (
  forget_entry-missing windows id n entry unshown kept.0 missing.0,
  forget-Missing windows id n cache unshown kept.1 missing.1,
)

forget_lists-Missing :
    (lists : List (List WindowInfo)) (id n : ℕ) (cache : Cache)
    → IsValid cache
    → All (λ windows. is_shown windows id ≡ false) lists
    → Missing id n cache
    → Missing id (n + length lists) (forget_lists cache lists)
forget_lists-Missing [] id n cache valid unshown missing =
    subst (λ k. Missing id k cache) (omega arith) missing
forget_lists-Missing (windows ∷ lists) id n cache valid unshown missing =
    subst (λ k. Missing id k (forget_lists (forget_unshown_surfaces cache windows) lists))
      (omega arith)
      (forget_lists-Missing lists id (suc n) (forget_unshown_surfaces cache windows)
        (forget-IsValid cache windows valid) unshown.1
        (forget-Missing windows id n cache unshown.0 valid.kept missing))

Missing-zero : (id : ℕ) (cache : Cache) → Missing id 0 cache
Missing-zero id [] = tt
Missing-zero id (entry ∷ cache) = (λ held. omega arith, Missing-zero id cache)

-- After more than eight lists of windows in a row that do not show a surface, the cache no longer
-- has it.
pub forget_lists-forgets :
    (cache : Cache) (id : ℕ) (lists : List (List WindowInfo))
    → IsValid cache
    → All (λ windows. is_shown windows id ≡ false) lists
    → surface_forget_lists < length lists
    → find_surface_cache (forget_lists cache lists) id ≡ none
forget_lists-forgets cache id lists valid unshown many =
    let later = forget_lists cache lists in
    elim (Option-cases (find_surface_cache later id)) [
      | inl absent ↦ absent
      | inr (j, found) ↦
          let (entry, (at, (live, same))) = find_surface_cache-some later id j found in
          let held : holds id entry ≡ true = ground (arith, live.0, same) in
          let missing =
            All-get_elem? _ later j entry
              (forget_lists-Missing lists id 0 cache valid unshown (Missing-zero id cache)) at
              held in
          let kept =
            All-get_elem? _ later j entry (forget_lists-IsValid lists cache valid).kept at in
          absurd (omega (arith, missing, kept, many))
    ]
