-- ===== src/Compositor/Surfaces.antt =====
-- The surface cache of graphics-compositor/src/surface.cpp: which surfaces the programs committed, and
-- what of them is to be drawn again. The cache is the list of its entries.
pub mod Slots
pub mod Keeps
pub mod History
pub mod Reach
pub mod Lists
use i_user_apps.Common.{
  ℕ, suc, Bool, true, false, not, ◌&&◌, ◌||◌, Option, none, some, List, [], ◌∷◌, ltb, leb, ◌==◌,
  if◌then◌else◌, get_elem?, get_or, set, add32, sub32, add64,
}
use i_user_apps.Compositor.Window.{
  Rect, Geometry, WindowInfo, empty_rect, border, title_bar_height, is_window_visible, clamp_rect,
}

abbrev pub max_surface_cache : ℕ
max_surface_cache = 64

abbrev pub surface_forget_lists : ℕ
surface_forget_lists = 8

pub record SurfaceInfo : Type 0 where
  pub id : ℕ
  pub width : ℕ
  pub height : ℕ
  pub dirty_x : ℕ
  pub dirty_y : ℕ
  pub dirty_width : ℕ
  pub dirty_height : ℕ

abbrev pub no_surface : SurfaceInfo
no_surface = record {
  id = 0;
  width = 0;
  height = 0;
  dirty_x = 0;
  dirty_y = 0;
  dirty_width = 0;
  dirty_height = 0;
}

-- `area` is the four fields `dirtyX`, `dirtyY`, `dirtyWidth` and `dirtyHeight`.
pub record SurfaceCacheEntry : Type 0 where
  pub valid : Bool
  pub id : ℕ
  pub info : SurfaceInfo
  pub dirty : Bool
  pub area : Rect
  pub generation : ℕ
  pub unshown_lists : ℕ

abbrev pub empty_entry : SurfaceCacheEntry
empty_entry = record {
  valid = false;
  id = 0;
  info = no_surface;
  dirty = false;
  area = empty_rect;
  generation = 0;
  unshown_lists = 0;
}

abbrev pub Cache : Type 0
Cache = List SurfaceCacheEntry

abbrev pub later : Option ℕ → Option ℕ
later none = none
later (some i) = some (suc i)

-- The first entry that passes a test, as both loops over the cache look for one.
unfoldable pub first_slot : (SurfaceCacheEntry → Bool) → Cache → Option ℕ
first_slot test [] = none
first_slot test (entry ∷ cache) =
    let rest = later (first_slot test cache) in if test entry then some 0 else rest

abbrev pub holds : ℕ → SurfaceCacheEntry → Bool
holds id entry = entry.valid && entry.id == id

unfoldable pub find_surface_cache : Cache → ℕ → Option ℕ
find_surface_cache cache id = if id == 0 then none else first_slot (holds id) cache

abbrev pub is_free : SurfaceCacheEntry → Bool
is_free entry = not entry.valid

abbrev pub or_slot : Option ℕ → ℕ → ℕ
or_slot none i = i
or_slot (some i) j = i

-- Its own entry, or else a free one, or else the first.
unfoldable pub slot_for : Cache → ℕ → ℕ
slot_for cache id = or_slot (find_surface_cache cache id) (or_slot (first_slot is_free cache) 0)

abbrev new_dirty : SurfaceInfo → Rect
new_dirty info = record {
  x = info.dirty_x;
  y = info.dirty_y;
  width = info.dirty_width;
  height = info.dirty_height;
}

unfoldable pub committed : Geometry → SurfaceInfo → SurfaceCacheEntry → SurfaceCacheEntry
committed g info entry =
    let seen = if not entry.valid || not (entry.id == info.id) then 0 else entry.generation in
    let old_dirty = if entry.dirty then entry.area else empty_rect in
    let merged = g.unite old_dirty (new_dirty info) in
    record {
      valid = true;
      id = info.id;
      info = info;
      dirty = not (g.is_empty merged);
      area = merged;
      generation = add64 seen 1;
      unshown_lists = 0;
    }

unfoldable pub remember_surface : Geometry → Cache → SurfaceInfo → Cache
remember_surface g cache info =
    let slot = slot_for cache info.id in
    set cache slot (committed g info (get_or cache slot empty_entry))

unfoldable pub is_shown : List WindowInfo → ℕ → Bool
is_shown [] id = false
is_shown (window ∷ windows) id =
    let rest = is_shown windows id in if window.surface_id == id then true else rest

unfoldable pub forget_entry : List WindowInfo → SurfaceCacheEntry → SurfaceCacheEntry
forget_entry windows entry =
    let missed = add32 entry.unshown_lists 1 in
    if not entry.valid
    then entry
    else if is_shown windows entry.id
    then record entry { unshown_lists = 0 }
    else if ltb surface_forget_lists missed
    then empty_entry
    else record entry { unshown_lists = missed }

unfoldable pub forget_unshown_surfaces : Cache → List WindowInfo → Cache
forget_unshown_surfaces [] windows = []
forget_unshown_surfaces (entry ∷ cache) windows =
    forget_entry windows entry ∷ forget_unshown_surfaces cache windows

-- The surfaces are those that `surface_poll` answers until it fails.
unfoldable pub pump_surface_updates : Geometry → Cache → List SurfaceInfo → Bool × Cache
pump_surface_updates g cache [] = (false, cache)
pump_surface_updates g cache (surface ∷ polled) =
    let (changed, cache') = pump_surface_updates g (remember_surface g cache surface) polled in
    (true, cache')

abbrev min32 : ℕ → ℕ → ℕ
min32 a b = if ltb a b then a else b

-- The part of a window's surface that is to be drawn again, on the screen; none if there is none.
unfoldable pub window_dirty : WindowInfo → SurfaceCacheEntry → Option Rect
window_dirty window entry =
    let dirty_right = add32 entry.area.x entry.area.width in
    let dirty_bottom = add32 entry.area.y entry.area.height in
    let surface_right = min32 entry.info.width window.width in
    let surface_bottom = min32 entry.info.height window.height in
    if entry.area.width == 0
      || entry.area.height == 0
      || leb surface_right entry.area.x
      || leb surface_bottom entry.area.y
    then none
    else some (record {
      x = add32 (add32 window.x border) entry.area.x;
      y = add32 (add32 window.y title_bar_height) entry.area.y;
      width = sub32 (min32 dirty_right surface_right) entry.area.x;
      height = sub32 (min32 dirty_bottom surface_bottom) entry.area.y;
    })

unfoldable pub entry_dirty : WindowInfo → Option SurfaceCacheEntry → Option Rect
entry_dirty window none = none
entry_dirty window (some entry) = if entry.dirty then window_dirty window entry else none

abbrev entry_at : Cache → Option ℕ → Option SurfaceCacheEntry
entry_at cache none = none
entry_at cache (some i) = get_elem? cache i

abbrev add_dirty : Geometry → Rect → Option Rect → Rect
add_dirty g dirty none = dirty
add_dirty g dirty (some rect) = g.unite dirty rect

-- The loop over the windows.
unfoldable pub collect_dirty : Geometry → List WindowInfo → Cache → Rect → Rect
collect_dirty g [] cache dirty = dirty
collect_dirty g (window ∷ windows) cache dirty =
    let found = entry_at cache (find_surface_cache cache window.surface_id) in
    let added = add_dirty g dirty (entry_dirty window found) in
    collect_dirty g windows cache (if is_window_visible window then added else dirty)

abbrev clear_entry : SurfaceCacheEntry → SurfaceCacheEntry
clear_entry entry = record entry { dirty = false; area = empty_rect }

unfoldable pub clear_surface_dirty_flags : Cache → Cache
clear_surface_dirty_flags [] = []
clear_surface_dirty_flags (entry ∷ cache) = clear_entry entry ∷ clear_surface_dirty_flags cache

unfoldable pub consume_surface_dirty_rect :
    Geometry → List WindowInfo → Cache → ℕ → ℕ → Rect × Cache
consume_surface_dirty_rect g windows cache width height = (
  clamp_rect g (collect_dirty g windows cache empty_rect) width height,
  clear_surface_dirty_flags cache,
)
