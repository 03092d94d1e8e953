-- ===== src/Compositor/Taskbar/Click.antt =====
-- What is under the pointer on the task bar of graphics-compositor/src/scene.cpp: hits, tooltips, clicks.
use i_user_apps.Common.{
  ℕ, ◌+◌, Bool, true, false, not, Option, none, some, List, [], ◌∷◌, if◌then◌else◌, get_elem?,
  add32, sub32,
}
use i_user_apps.Compositor.Window.{Rect, Geometry, WindowInfo, empty_rect, half32, slt32}
use i_user_apps.Compositor.Taskbar.{
  tooltip_height, TaskbarTile, TaskbarLayout, TaskbarHit, Call, is_active, tile_window, tile_label,
}

-- The loop of `taskbar_hit`, from tile `i` on.
unfoldable pub tile_at : Geometry → List TaskbarTile → ℕ → ℕ → ℕ → TaskbarHit
tile_at g [] x y i = TaskbarHit.bar_hit
tile_at g (tile ∷ tiles) x y i =
    let rest = tile_at g tiles x y (i + 1) in
    if g.contains tile.rect x y then TaskbarHit.tile_hit i else rest

unfoldable pub taskbar_hit : Geometry → TaskbarLayout → ℕ → ℕ → TaskbarHit
taskbar_hit g layout x y =
    if not (g.contains layout.bar x y)
    then TaskbarHit.no_hit
    else if g.contains layout.start x y
    then TaskbarHit.start_hit
    else tile_at g layout.tiles x y 0

-- `text_width` is the width of a text in the font of the tooltip.
unfoldable pub tooltip_of :
    Geometry → (List ℕ → ℕ) → TaskbarLayout → TaskbarTile → List WindowInfo → Rect
tooltip_of g text_width layout tile windows =
    let width = add32 (text_width (tile_label tile (tile_window tile windows))) 20 in
    let centred = sub32 (add32 tile.rect.x (half32 tile.rect.width)) (half32 width) in
    let x = if slt32 centred layout.bar.x then layout.bar.x else centred in
    record {
      x =
          if slt32 (g.right layout.bar) (add32 x width)
          then sub32 (g.right layout.bar) width
          else x;
      y = sub32 (sub32 layout.bar.y 8) tooltip_height;
      width = width;
      height = tooltip_height;
    }

-- The tile is none for the source's -1.
unfoldable pub taskbar_tooltip_rect :
    Geometry → (List ℕ → ℕ) → TaskbarLayout → Option ℕ → List WindowInfo → Rect
taskbar_tooltip_rect g text_width layout none windows = empty_rect
taskbar_tooltip_rect g text_width layout (some i) windows = elim (get_elem? layout.tiles i) [
  | none ↦ empty_rect
  | some tile ↦ tooltip_of g text_width layout tile windows
]

abbrev launch_slot : Option ℕ → List Call
launch_slot none = []
launch_slot (some slot) = Call.launch slot ∷ []

unfoldable pub click_window : Option ℕ → Option WindowInfo → Bool × List Call
click_window slot none = (false, launch_slot slot)
click_window slot (some window) =
    (true, (if is_active window then Call.minimize window.id else Call.focus window.id) ∷ [])

-- Whether windows changed, and the calls.
unfoldable pub taskbar_click : TaskbarLayout → ℕ → List WindowInfo → Bool × List Call
taskbar_click layout i windows = elim (get_elem? layout.tiles i) [
  | none ↦ (false, [])
  | some tile ↦ click_window tile.slot (tile_window tile windows)
]
