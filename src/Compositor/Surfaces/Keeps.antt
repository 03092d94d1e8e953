-- ===== src/Compositor/Surfaces/Keeps.antt =====
-- What forgetting and clearing keep of the surface cache of graphics-compositor/src/surface.cpp.
use i_user_apps.Common.{
  ℕ, zero, suc, ◌≤◌, ◌<◌, ◌≡◌, refl, sym, ap, ◌∙◌, subst, ◌≢◌, ◌⊎◌, inl, inr, some, List, [], ◌∷◌,
  arith, ltb, ◌==◌, Bool-cases, length, get_elem?, get_or, set, All, add32, get_elem?-set,
  get_elem?-set_other, some_injective,
}
use i_user_apps.Compositor.Window.{Geometry, WindowInfo}
use i_user_apps.Compositor.Surfaces.{
  SurfaceInfo, SurfaceCacheEntry, Cache, empty_entry, max_surface_cache, surface_forget_lists,
  slot_for, committed, remember_surface, forget_entry, forget_unshown_surfaces, is_shown,
  clear_surface_dirty_flags,
}
use i_user_apps.Compositor.Surfaces.Slots.{IsLive, IsUnique, slot_for_live, slot_for-bound}

pub record IsValid (cache : Cache) : Type 0 where
  pub size : length cache ≡ max_surface_cache
  pub unique : IsUnique cache
  pub kept : All (λ entry. entry.unshown_lists ≤ surface_forget_lists) cache

pub set_cases :
    (cache : Cache) (slot i : ℕ) (v a : SurfaceCacheEntry)
    → slot < length cache
    → get_elem? (set cache slot v) i ≡ some a
    → ((i ≡ slot) × (a ≡ v)) ⊎ ((i ≢ slot) × (get_elem? cache i ≡ some a))
set_cases cache slot i v a inside at = elim (Bool-cases (i == slot)) [
  | inl here ↦
      let same : i ≡ slot = ground (arith, here) in
      let put = get_elem?-set cache slot v inside in
      let at' : get_elem? (set cache slot v) slot ≡ some a =
        subst (λ k. get_elem? (set cache slot v) k ≡ some a) same at in
      inl (same, some_injective a v (sym at' ∙ put))
  | inr away ↦
      let other : i ≢ slot = ground (arith, away) in
      inr (other, sym (get_elem?-set_other cache slot i v other) ∙ at)
]

pub remember_surface-IsUnique :
    (g : Geometry) (cache : Cache) (info : SurfaceInfo)
    → 0 < length cache
    → IsUnique cache
    → IsUnique (remember_surface g cache info)
unfolding remember_surface committed
remember_surface-IsUnique g cache info some_room unique i j a b at_i at_j live_a live_b same =
    let slot = slot_for cache info.id in
    let v = committed g info (get_or cache slot empty_entry) in
    let inside = slot_for-bound cache info.id some_room in
    elim (set_cases cache slot i v a inside at_i) [
      | inl (i_here, a_new) ↦ elim (set_cases cache slot j v b inside at_j) [
        | inl (j_here, b_new) ↦ i_here ∙ sym j_here
        | inr (j_other, b_old) ↦
            let id_b : b.id ≡ info.id = sym same ∙ ap (λ e. e.id) a_new in
            i_here ∙ sym (slot_for_live cache j b unique b_old live_b ∙ ap (slot_for cache) id_b)
      ]
      | inr (i_other, a_old) ↦ elim (set_cases cache slot j v b inside at_j) [
        | inl (j_here, b_new) ↦
            let id_a : a.id ≡ info.id = same ∙ ap (λ e. e.id) b_new in
            slot_for_live cache i a unique a_old live_a ∙ ap (slot_for cache) id_a ∙ sym j_here
        | inr (j_other, b_old) ↦ unique i j a b a_old b_old live_a live_b same
      ]
    ]

-- Where an entry is live, the older cache has one for the same surface.
abbrev Shrinks : Cache → Cache → Type 0
Shrinks old new =
    (i : ℕ) (a : SurfaceCacheEntry)
    → get_elem? new i ≡ some a
    → IsLive a
    → (entry : SurfaceCacheEntry) × ((get_elem? old i ≡ some entry)
        × (IsLive entry × (entry.id ≡ a.id)))

IsUnique-Shrinks : (old new : Cache) → Shrinks old new → IsUnique old → IsUnique new
IsUnique-Shrinks old new shrinks unique i j a b at_i at_j live_a live_b same =
    let (x, (x_at, (x_live, x_id))) = shrinks i a at_i live_a in
    let (y, (y_at, (y_live, y_id))) = shrinks j b at_j live_b in
    unique i j x y x_at y_at x_live y_live (x_id ∙ same ∙ sym y_id)

pub forget_entry_cases :
    (windows : List WindowInfo) (entry : SurfaceCacheEntry)
    → ((u : ℕ) × (forget_entry windows entry ≡ record entry { unshown_lists = u }))
      ⊎ (forget_entry windows entry ≡ empty_entry)
unfolding forget_entry
forget_entry_cases windows entry = elim (Bool-cases entry.valid) [
  | inr free ↦ inl (entry.unshown_lists, rw (forget_entry, free) refl)
  | inl valid ↦ elim (Bool-cases (is_shown windows entry.id)) [
    | inl shown ↦ inl (0, simp (forget_entry, valid, shown) refl)
    | inr unshown ↦ elim (Bool-cases (ltb surface_forget_lists (add32 entry.unshown_lists 1))) [
      | inl many ↦ inr (simp (forget_entry, valid, unshown, many) refl)
      | inr few ↦ inl (add32 entry.unshown_lists 1, simp (forget_entry, valid, unshown, few) refl)
    ]
  ]
]

forget_entry-IsLive :
    (windows : List WindowInfo) (entry : SurfaceCacheEntry)
    → IsLive (forget_entry windows entry)
    → IsLive entry × (entry.id ≡ (forget_entry windows entry).id)
forget_entry-IsLive windows entry live = elim (forget_entry_cases windows entry) [
  | inl (u, same) ↦ (subst IsLive same live, sym (ap (λ e. e.id) same))
  | inr gone ↦ absurd ((subst IsLive gone live).1 refl)
]

forget-Shrinks :
    (cache : Cache) (windows : List WindowInfo)
    → Shrinks cache (forget_unshown_surfaces cache windows)
unfolding forget_unshown_surfaces
forget-Shrinks [] windows i a at live = absurd cc
forget-Shrinks (entry ∷ cache) windows zero a at live =
    let same : forget_entry windows entry ≡ a = some_injective _ _ at in
    let (live', id) = forget_entry-IsLive windows entry (subst IsLive (sym same) live) in
    (entry, (refl, (live', id ∙ ap (λ e. e.id) same)))
forget-Shrinks (entry ∷ cache) windows (suc i) a at live = forget-Shrinks cache windows i a at live

clear-Shrinks : (cache : Cache) → Shrinks cache (clear_surface_dirty_flags cache)
unfolding clear_surface_dirty_flags
clear-Shrinks [] i a at live = absurd cc
clear-Shrinks (entry ∷ cache) zero a at live =
    let same = some_injective _ _ at in
    (
      entry,
      (
        refl,
        (
          (ap (λ e. e.valid) same ∙ live.0, λ e. live.1 (sym (ap (λ e. e.id) same) ∙ e)),
          ap (λ e. e.id) same,
        ),
      ),
    )
clear-Shrinks (entry ∷ cache) (suc i) a at live = clear-Shrinks cache i a at live

forget_entry-kept :
    (windows : List WindowInfo) (entry : SurfaceCacheEntry)
    → entry.unshown_lists ≤ surface_forget_lists
    → (forget_entry windows entry).unshown_lists ≤ surface_forget_lists
unfolding forget_entry
forget_entry-kept windows entry few = ground (arith, few)

forget-kept :
    (cache : Cache) (windows : List WindowInfo)
    → All (λ entry. entry.unshown_lists ≤ surface_forget_lists) cache
    → All
        (λ entry. entry.unshown_lists ≤ surface_forget_lists)
        (forget_unshown_surfaces cache windows)
unfolding forget_unshown_surfaces
forget-kept [] windows kept = tt
forget-kept (entry ∷ cache) windows kept =
    (forget_entry-kept windows entry kept.0, forget-kept cache windows kept.1)

length-forget :
    (cache : Cache) (windows : List WindowInfo)
    → length (forget_unshown_surfaces cache windows) ≡ length cache
unfolding forget_unshown_surfaces
length-forget [] windows = refl
length-forget (entry ∷ cache) windows = ap suc (length-forget cache windows)

pub forget-IsValid :
    (cache : Cache) (windows : List WindowInfo)
    → IsValid cache
    → IsValid (forget_unshown_surfaces cache windows)
forget-IsValid cache windows valid = record {
  size = length-forget cache windows ∙ valid.size;
  unique =
      IsUnique-Shrinks cache (forget_unshown_surfaces cache windows) (forget-Shrinks cache windows)
        valid.unique;
  kept = forget-kept cache windows valid.kept;
}

clear-kept :
    (cache : Cache)
    → All (λ entry. entry.unshown_lists ≤ surface_forget_lists) cache
    → All (λ entry. entry.unshown_lists ≤ surface_forget_lists) (clear_surface_dirty_flags cache)
unfolding clear_surface_dirty_flags
clear-kept [] kept = tt
clear-kept (entry ∷ cache) kept = (kept.0, clear-kept cache kept.1)

length-clear : (cache : Cache) → length (clear_surface_dirty_flags cache) ≡ length cache
unfolding clear_surface_dirty_flags
length-clear [] = refl
length-clear (entry ∷ cache) = ap suc (length-clear cache)

pub clear-IsValid : (cache : Cache) → IsValid cache → IsValid (clear_surface_dirty_flags cache)
clear-IsValid cache valid = record {
  size = length-clear cache ∙ valid.size;
  unique =
      IsUnique-Shrinks cache (clear_surface_dirty_flags cache) (clear-Shrinks cache) valid.unique;
  kept = clear-kept cache valid.kept;
}
