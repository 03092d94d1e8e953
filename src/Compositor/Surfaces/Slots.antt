-- ===== src/Compositor/Surfaces/Slots.antt =====
-- Which entry of the surface cache of graphics-compositor/src/surface.cpp is found.
use i_user_apps.Common.{
  ℕ, zero, suc, ◌<◌, ◌≡◌, refl, sym, ap, ◌∙◌, subst, ◌≢◌, inl, inr, Bool, true, false, none, some,
  [], ◌∷◌, arith, ◌==◌, if◌then◌else◌, Bool-cases, Option-cases, length, get_elem?, get_elem?-some,
}
use i_user_apps.Compositor.Surfaces.{
  SurfaceCacheEntry, Cache, first_slot, holds, find_surface_cache, is_free, slot_for,
}

pub first_slot-some :
    (test : SurfaceCacheEntry → Bool) (cache : Cache) (i : ℕ)
    → first_slot test cache ≡ some i
    → (entry : SurfaceCacheEntry) × ((get_elem? cache i ≡ some entry) × (test entry ≡ true))
unfolding first_slot
first_slot-some test [] i e = absurd cc
first_slot-some test (entry ∷ cache) i e = elim (Bool-cases (test entry)) [
  | inl hit ↦
      let zero_here : 0 ≡ i = ground (arith, e, hit) in
      (entry, (ap (get_elem? (entry ∷ cache)) (sym zero_here), hit))
  | inr miss ↦ elim (Option-cases (first_slot test cache)) [
    | inl none_left ↦ absurd (ground (arith, e, miss, none_left))
    | inr (j, at) ↦
        let next : suc j ≡ i = ground (arith, e, miss, at) in
        let (found, (here, passes)) = first_slot-some test cache j at in
        (found, (ap (get_elem? (entry ∷ cache)) (sym next) ∙ here, passes))
  ]
]

pub first_slot-exists :
    (test : SurfaceCacheEntry → Bool) (cache : Cache) (i : ℕ) (entry : SurfaceCacheEntry)
    → get_elem? cache i ≡ some entry
    → test entry ≡ true
    → (j : ℕ) × (first_slot test cache ≡ some j)
unfolding first_slot
first_slot-exists test [] i entry at passes = absurd cc
first_slot-exists test (x ∷ cache) zero entry at passes =
    let same : x ≡ entry = cc in
    let here : test x ≡ true = subst (λ t. test t ≡ true) (sym same) passes in (0, rw here refl)
first_slot-exists test (x ∷ cache) (suc i) entry at passes =
    let (j, found) = first_slot-exists test cache i entry at passes in
    elim (Bool-cases (test x)) [
      | inl hit ↦ (0, rw hit refl)
      | inr miss ↦ (suc j, rw (miss, found) refl)
    ]

-- An entry in use, for a surface: the system gives out no surface with the id 0.
abbrev pub IsLive : SurfaceCacheEntry → Type 0
IsLive entry = (entry.valid ≡ true) × (entry.id ≢ 0)

-- No two entries are of the same surface.
abbrev pub IsUnique : Cache → Type 0
IsUnique cache =
    (i j : ℕ) (a b : SurfaceCacheEntry)
    → get_elem? cache i ≡ some a
    → get_elem? cache j ≡ some b
    → IsLive a
    → IsLive b
    → a.id ≡ b.id
    → i ≡ j

pub find_surface_cache_live :
    (cache : Cache) (i : ℕ) (entry : SurfaceCacheEntry)
    → get_elem? cache i ≡ some entry
    → IsLive entry
    → (j : ℕ) × (find_surface_cache cache entry.id ≡ some j)
unfolding find_surface_cache
find_surface_cache_live cache i entry at (valid, positive) =
    let other : (entry.id == 0) ≡ false = ground (arith, positive) in
    let same : holds entry.id entry ≡ true = ground (arith, valid) in
    let (j, found) = first_slot-exists (holds entry.id) cache i entry at same in (j, rw other found)

pub find_surface_cache-some :
    (cache : Cache) (id j : ℕ)
    → find_surface_cache cache id ≡ some j
    → (entry : SurfaceCacheEntry) × ((get_elem? cache j ≡ some entry)
        × (IsLive entry × (entry.id ≡ id)))
unfolding find_surface_cache
find_surface_cache-some cache id j e = elim (Bool-cases (id == 0)) [
  | inl none_kept ↦ absurd (ground (arith, e, none_kept))
  | inr positive ↦
      let found : first_slot (holds id) cache ≡ some j =
        subst (λ t. (if t then none else first_slot (holds id) cache) ≡ some j) positive e in
      let (entry, (at, held)) = first_slot-some (holds id) cache j found in
      let valid : entry.valid ≡ true = ground (arith, held) in
      let same : entry.id ≡ id = ground (arith, held) in
      (entry, (at, ((valid, ground (arith, same, positive)), same)))
]

pub slot_for_found :
    (cache : Cache) (id j : ℕ) → find_surface_cache cache id ≡ some j → slot_for cache id ≡ j
unfolding slot_for
slot_for_found cache id j e = rw e refl

-- Where a live entry with this id stands, a commit goes.
pub slot_for_live :
    (cache : Cache) (i : ℕ) (entry : SurfaceCacheEntry)
    → IsUnique cache
    → get_elem? cache i ≡ some entry
    → IsLive entry
    → i ≡ slot_for cache entry.id
slot_for_live cache i entry unique at live =
    let (j, found) = find_surface_cache_live cache i entry at live in
    let (other, (there, (live', same))) = find_surface_cache-some cache entry.id j found in
    unique i j entry other at there live live' (sym same)
    ∙ sym (slot_for_found cache entry.id j found)

pub slot_for-bound : (cache : Cache) (id : ℕ) → 0 < length cache → slot_for cache id < length cache
unfolding slot_for
slot_for-bound cache id some_room = elim (Option-cases (find_surface_cache cache id)) [
  | inr (j, found) ↦
      let (entry, (at, rest)) = find_surface_cache-some cache id j found in
      rw found (get_elem?-some cache j entry at)
  | inl absent ↦ elim (Option-cases (first_slot is_free cache)) [
    | inr (j, free) ↦
        let (entry, (at, rest)) = first_slot-some is_free cache j free in
        rw (absent, free) (get_elem?-some cache j entry at)
    | inl full ↦ rw (absent, full) some_room
  ]
]
