-- ===== src/Compositor/Taskbar.antt =====
-- The task bar of graphics-compositor/src/scene.cpp: where its tiles are, what they stand for, and
-- what a click on one does. What the compositor asks the kernel to do is a value, `Call`.
pub mod Tiles
pub mod Click
use i_user_apps.Common.{
  ℕ, ◌+◌, ◌-◌, ◌*◌, ◌/◌, Bool, true, false, not, ◌&&◌, ◌||◌, Option, none, some, List, [], ◌∷◌,
  ◌++◌, map, ltb, ◌==◌, if◌then◌else◌, length, get_or, add32, sub32, mul32, reverse,
}
use i_user_apps.Common.CString.{codes, same_text}
use i_user_apps.Compositor.Window.{
  Rect, Geometry, WindowInfo, empty_rect, window_by_id, half32, slt32,
}

abbrev pub taskbar_height : ℕ
taskbar_height = 52

abbrev pub taskbar_margin : ℕ
taskbar_margin = 12

abbrev work_area_gap : ℕ
work_area_gap = 12

abbrev start_size : ℕ
start_size = 36

abbrev tile_size : ℕ
tile_size = 44

abbrev tile_gap : ℕ
tile_gap = 6

abbrev pub tooltip_height : ℕ
tooltip_height = 26

abbrev pub pinned_count : ℕ
pinned_count = 5

abbrev pub max_tiles : ℕ
max_tiles = 16

-- `slot` is the pinned app, or none.
pub record TaskbarTile : Type 0 where
  pub rect : Rect
  pub slot : Option ℕ
  pub window_id : ℕ

pub record TaskbarLayout : Type 0 where
  pub bar : Rect
  pub start : Rect
  pub tiles : List TaskbarTile

pub data TaskbarHit : Type 0 where
  no_hit start_hit bar_hit : TaskbarHit
  tile_hit : (tile : ℕ) → TaskbarHit

pub data Call : Type 0 where
  focus minimize restore close : (id : ℕ) → Call
  maximize : (id : ℕ) (frame : Rect) → Call
  move : (id x y : ℕ) → Call
  resize : (id width height : ℕ) → Call
  launch : (slot : ℕ) → Call

unfoldable pub taskbar_bar_rect : ℕ → ℕ → Rect
taskbar_bar_rect screen_width screen_height = record {
  x = taskbar_margin;
  y = sub32 (sub32 screen_height taskbar_margin) taskbar_height;
  width = sub32 screen_width (2 * taskbar_margin);
  height = taskbar_height;
}

unfoldable pub work_area_bottom : ℕ → ℕ
work_area_bottom screen_height =
    sub32 (sub32 (sub32 screen_height taskbar_margin) taskbar_height) work_area_gap

abbrev window_titles : List (List ℕ)
window_titles =
    codes "Terminal"
    ∷ codes "File Browser"
    ∷ codes "Background Switcher"
    ∷ codes "Cube"
    ∷ codes "NetSurf"
    ∷ []

abbrev slot_labels : List (List ℕ)
slot_labels =
    codes "Terminal" ∷ codes "Files" ∷ codes "Wallpapers" ∷ codes "Cube" ∷ codes "Web" ∷ []

-- The loop of `pinned_slot_of`, from a slot on.
unfoldable pub slot_from : List (List ℕ) → List ℕ → ℕ → Option ℕ
slot_from [] title slot = none
slot_from (pinned ∷ titles) title slot =
    let rest = slot_from titles title (slot + 1) in
    if same_text title pinned then some slot else rest

unfoldable pub pinned_slot_of : List ℕ → Option ℕ
pinned_slot_of title = slot_from window_titles title 0

unfoldable pub is_open : WindowInfo → Bool
is_open window = not window.closed

unfoldable pub is_active : WindowInfo → Bool
is_active window = window.focused && not window.minimized

abbrev pub same_slot : Option ℕ → ℕ → Bool
same_slot none slot = false
same_slot (some pinned) slot = pinned == slot

abbrev better : Option WindowInfo → WindowInfo → Bool
better none window = true
better (some best) window = is_active window || (not (is_active best) && ltb best.id window.id)

-- The loop of `tile_window` for a pinned app.
unfoldable pub best_window : List WindowInfo → ℕ → Option WindowInfo → Option WindowInfo
best_window [] slot best = best
best_window (window ∷ windows) slot best =
    let mine = is_open window && same_slot (pinned_slot_of window.title) slot in
    best_window windows slot (if mine && better best window then some window else best)

abbrev open_only : Option WindowInfo → Option WindowInfo
open_only none = none
open_only (some window) = if is_open window then some window else none

unfoldable pub tile_window : TaskbarTile → List WindowInfo → Option WindowInfo
tile_window tile windows = elim tile.slot [
  | none ↦ open_only (window_by_id windows tile.window_id)
  | some slot ↦ best_window windows slot none
]

abbrev app_label : Option ℕ → List ℕ
app_label none = codes "Window"
app_label (some slot) = get_or slot_labels slot []

unfoldable pub tile_label : TaskbarTile → Option WindowInfo → List ℕ
tile_label tile none = app_label tile.slot
tile_label tile (some window) = elim window.title [
  | [] ↦ app_label tile.slot
  | c ∷ title ↦ c ∷ title
]

-- The windows that no pinned app has.
unfoldable pub is_unpinned : WindowInfo → Bool
is_unpinned window = is_open window && not (is_some (pinned_slot_of window.title))
  where
    is_some : Option ℕ → Bool
    is_some none = false
    is_some (some slot) = true

-- The ids of the tiles behind the pinned ones, the last first. The loop moves the greater ones on.
unfoldable pub insert_tile : ℕ → List ℕ → List ℕ
insert_tile id [] = id ∷ []
insert_tile id (last ∷ before) =
    let further = insert_tile id before in
    if ltb id last then last ∷ further else id ∷ (last ∷ before)

-- With all tiles in use, a newer window is left out, and an older one takes the last tile's place.
unfoldable pub add_tile : ℕ → List ℕ → List ℕ
add_tile id [] = id ∷ []
add_tile id (last ∷ before) =
    if length (last ∷ before) == max_tiles - pinned_count
    then (if ltb last id then last ∷ before else insert_tile id before)
    else insert_tile id (last ∷ before)

unfoldable pub add_tiles : List WindowInfo → List ℕ → List ℕ
add_tiles [] tiles = tiles
add_tiles (window ∷ windows) tiles =
    add_tiles windows (if is_unpinned window then add_tile window.id tiles else tiles)

abbrev pinned_tile : ℕ → TaskbarTile
pinned_tile slot = record { rect = empty_rect; slot = some slot; window_id = 0 }

abbrev pub window_tile : ℕ → TaskbarTile
window_tile id = record { rect = empty_rect; slot = none; window_id = id }

abbrev pub pinned_tiles : List TaskbarTile
pinned_tiles = pinned_tile 0 ∷ pinned_tile 1 ∷ pinned_tile 2 ∷ pinned_tile 3 ∷ pinned_tile 4 ∷ []

-- The last loop of `taskbar_layout`, from tile `i` on.
unfoldable pub place_tiles : Rect → ℕ → List TaskbarTile → ℕ → List TaskbarTile
place_tiles bar x0 [] i = []
place_tiles bar x0 (tile ∷ tiles) i =
    record tile {
      rect = record {
        x = add32 x0 (mul32 i (tile_size + tile_gap));
        y = add32 bar.y ((taskbar_height - tile_size) / 2);
        width = tile_size;
        height = tile_size;
      };
    }
    ∷ place_tiles bar x0 tiles (i + 1)

unfoldable pub taskbar_layout : ℕ → ℕ → List WindowInfo → TaskbarLayout
taskbar_layout screen_width screen_height windows =
    let bar = taskbar_bar_rect screen_width screen_height in
    let tiles = pinned_tiles ++ map window_tile (reverse (add_tiles windows [])) in
    let total = add32 (mul32 (length tiles) tile_size) (mul32 (sub32 (length tiles) 1) tile_gap) in
    record {
      bar = bar;
      start = record {
        x = add32 bar.x 8;
        y = add32 bar.y ((taskbar_height - start_size) / 2);
        width = start_size;
        height = start_size;
      };
      tiles = place_tiles bar (add32 bar.x (half32 (sub32 bar.width total))) tiles 0;
    }
