-- ===== src/Compositor/Surfaces/Reach.antt =====
-- What holds of the surface cache of graphics-compositor/src/surface.cpp after any calls.
use i_user_apps.Common.{
  ℕ, zero, suc, ◌≤◌, ◌≡◌, refl, sym, ap, ◌∙◌, false, some, List, [], ◌∷◌, arith, get_elem?, get_or,
  replicate, length-set, All, All-set, some_injective,
}
use i_user_apps.Compositor.Window.{Geometry, WindowInfo}
use i_user_apps.Compositor.Surfaces.{
  SurfaceInfo, SurfaceCacheEntry, Cache, empty_entry, max_surface_cache, surface_forget_lists,
  slot_for, committed, remember_surface, forget_unshown_surfaces, clear_surface_dirty_flags,
  pump_surface_updates, consume_surface_dirty_rect,
}
use i_user_apps.Compositor.Surfaces.Keeps.{
  IsValid, remember_surface-IsUnique, forget-IsValid, clear-IsValid,
}
use i_user_apps.Compositor.Surfaces.History.{
  Event, committed_one, listed_windows, IsCounted, remember_surface-IsCounted, forget-IsCounted,
  clear-IsCounted,
}

pub remember_surface-IsValid :
    (g : Geometry) (cache : Cache) (info : SurfaceInfo)
    → IsValid cache
    → IsValid (remember_surface g cache info)
unfolding remember_surface committed
remember_surface-IsValid g cache info valid =
    let slot = slot_for cache info.id in
    let v = committed g info (get_or cache slot empty_entry) in
    record {
      size = length-set cache slot v ∙ valid.size;
      unique = remember_surface-IsUnique g cache info (omega (arith, valid.size)) valid.unique;
      kept =
          All-set (λ entry. entry.unshown_lists ≤ surface_forget_lists) cache slot v valid.kept
            (omega arith);
    }

abbrev pub first_cache : Cache
first_cache = replicate max_surface_cache empty_entry

-- The history of a cache, with each commit that was polled.
abbrev add_commits : List SurfaceInfo → List Event → List Event
add_commits [] history = history
add_commits (surface ∷ polled) history = add_commits polled (committed_one surface.id ∷ history)

-- The caches that the compositor's calls lead to, from the empty one, with their history.
pub data ReachCache (g : Geometry) : List Event → Cache → Type 0 where
  started : ReachCache g [] first_cache
  pumped :
      (history : List Event) (cache : Cache) (polled : List SurfaceInfo)
      → ReachCache g history cache
      → ReachCache g (add_commits polled history) (pump_surface_updates g cache polled).1
  listed :
      (history : List Event) (cache : Cache) (windows : List WindowInfo)
      → ReachCache g history cache
      → ReachCache g (listed_windows windows ∷ history) (forget_unshown_surfaces cache windows)
  consumed :
      (history : List Event) (cache : Cache) (windows : List WindowInfo) (width height : ℕ)
      → ReachCache g history cache
      → ReachCache g history (consume_surface_dirty_rect g windows cache width height).1
  cleared :
      (history : List Event) (cache : Cache)
      → ReachCache g history cache
      → ReachCache g history (clear_surface_dirty_flags cache)

replicate-empty :
    (n i : ℕ) (a : SurfaceCacheEntry)
    → get_elem? (replicate n empty_entry) i ≡ some a
    → a.valid ≡ false
replicate-empty zero i a at = absurd cc
replicate-empty (suc n) zero a at = sym (ap (λ e. e.valid) (some_injective empty_entry a at))
replicate-empty (suc n) (suc i) a at = replicate-empty n i a at

replicate-kept :
    (n : ℕ) → All (λ entry. entry.unshown_lists ≤ surface_forget_lists) (replicate n empty_entry)
replicate-kept zero = tt
replicate-kept (suc n) = (omega arith, replicate-kept n)

first_cache-IsValid : IsValid first_cache
first_cache-IsValid = record {
  size = refl;
  unique = λ i j a b at_i at_j live_a live_b same.
      absurd (ground (arith, replicate-empty max_surface_cache i a at_i, live_a.0));
  kept = replicate-kept max_surface_cache;
}

first_cache-IsCounted : IsCounted [] first_cache
first_cache-IsCounted i a at live =
    absurd (ground (arith, replicate-empty max_surface_cache i a at, live.0))

-- What holds of a cache and its history.
pub record IsTracked (history : List Event) (cache : Cache) : Type 0 where
  pub valid : IsValid cache
  pub counted : IsCounted history cache

pump-IsTracked :
    (g : Geometry) (polled : List SurfaceInfo) (history : List Event) (cache : Cache)
    → IsTracked history cache
    → IsTracked (add_commits polled history) (pump_surface_updates g cache polled).1
unfolding pump_surface_updates
pump-IsTracked g [] history cache tracked = tracked
pump-IsTracked g (surface ∷ polled) history cache tracked =
    pump-IsTracked g polled (committed_one surface.id ∷ history) (remember_surface g cache surface)
      (record {
        valid = remember_surface-IsValid g cache surface tracked.valid;
        counted = remember_surface-IsCounted g history cache surface tracked.valid tracked.counted;
      })

clear-IsTracked :
    (history : List Event) (cache : Cache)
    → IsTracked history cache
    → IsTracked history (clear_surface_dirty_flags cache)
clear-IsTracked history cache before = record {
  valid = clear-IsValid cache before.valid;
  counted = clear-IsCounted history cache before.counted;
}

-- After any calls, the cache has all its entries, no two of them are of the same surface, and each
-- entry in use counts the lists of windows in a row that did not show its surface since its last
-- commit, which are at most eight.
pub ReachCache-IsTracked :
    (g : Geometry) (history : List Event) (cache : Cache)
    → ReachCache g history cache
    → IsTracked history cache
unfolding consume_surface_dirty_rect
ReachCache-IsTracked g _ _ ReachCache.started = record {
  valid = first_cache-IsValid;
  counted = first_cache-IsCounted;
}
ReachCache-IsTracked g _ _ (ReachCache.pumped history cache polled reach) =
    pump-IsTracked g polled history cache (ReachCache-IsTracked g history cache reach)
ReachCache-IsTracked g _ _ (ReachCache.listed history cache windows reach) =
    let before = ReachCache-IsTracked g history cache reach in
    record {
      valid = forget-IsValid cache windows before.valid;
      counted = forget-IsCounted history cache windows before.valid before.counted;
    }
ReachCache-IsTracked g _ _ (ReachCache.consumed history cache windows width height reach) =
    clear-IsTracked history cache (ReachCache-IsTracked g history cache reach)
ReachCache-IsTracked g _ _ (ReachCache.cleared history cache reach) =
    clear-IsTracked history cache (ReachCache-IsTracked g history cache reach)
