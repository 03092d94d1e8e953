-- ===== src/Compositor/Input/Hover.antt =====
-- update_control_hover of graphics-compositor/src/input.cpp: the control and the tile under the pointer.
use i_user_apps.Compositor.Taskbar.Click.{taskbar_tooltip_rect}
use i_user_apps.Common.{
  ℕ, Bool, true, false, not, ◌&&◌, Option, none, some, List, ◌==◌, if◌then◌else◌, get_elem?,
}
use i_user_apps.Compositor.Window.{
  Rect, Geometry, WindowInfo, WindowControl, window_by_id, window_control_rect,
}
use i_user_apps.Compositor.Taskbar.{TaskbarLayout, TaskbarHit}
use i_user_apps.Compositor.Input.{
  Desktop, PointerEvent, WindowHover, Input, top_window_at, window_control_at, is_dragging,
  layout_of, hit_at, is_no_hit,
}

-- The area to be drawn again, none for a null pointer.
abbrev pub Dirty : Type 0
Dirty = Option Rect

abbrev pub add_rect : Geometry → Rect → Dirty → Dirty
add_rect g rect none = none
add_rect g rect (some dirty) = some (g.unite dirty rect)

abbrev same_tile : Option ℕ → Option ℕ → Bool
same_tile none none = true
same_tile (some i) (some j) = i == j
same_tile _ _ = false

abbrev hovered_tile : TaskbarHit → Option ℕ
hovered_tile (TaskbarHit.tile_hit tile) = some tile
hovered_tile _ = none

abbrev add_tile_rect : Geometry → TaskbarLayout → Option ℕ → Dirty → Dirty
add_tile_rect g layout none dirty = dirty
add_tile_rect g layout (some i) dirty = elim (get_elem? layout.tiles i) [
  | none ↦ dirty
  | some tile ↦ add_rect g tile.rect dirty
]

-- The first half of `update_control_hover`.
unfoldable pub hover_tile : Desktop → PointerEvent → Input → Dirty → Input × Dirty
hover_tile d event s dirty =
    let g = d.geometry in
    let layout = layout_of d in
    let tile = if is_dragging s.drag then none else hovered_tile (hit_at d event) in
    let before = taskbar_tooltip_rect g d.text_width layout s.taskbar_hover d.windows in
    let after = taskbar_tooltip_rect g d.text_width layout tile d.windows in
    let tips = add_rect g after (add_rect g before dirty) in
    let dirty' = add_tile_rect g layout tile (add_tile_rect g layout s.taskbar_hover tips) in
    if same_tile tile s.taskbar_hover
    then (s, dirty)
    else (record s { taskbar_hover = tile }, dirty')

abbrev no_hover : WindowHover
no_hover = record { window_id = 0; control = WindowControl.close }

abbrev hover_control : WindowInfo → Option WindowControl → WindowHover
hover_control top none = no_hover
hover_control top (some control) = record { window_id = top.id; control = control }

abbrev hover_of : Geometry → Option WindowInfo → PointerEvent → WindowHover
hover_of g none event = no_hover
hover_of g (some top) event = hover_control top (window_control_at g top event.x event.y)

abbrev same_control : WindowControl → WindowControl → Bool
same_control WindowControl.close WindowControl.close = true
same_control WindowControl.maximize WindowControl.maximize = true
same_control WindowControl.minimize WindowControl.minimize = true
same_control _ _ = false

abbrev same_hover : WindowHover → WindowHover → Bool
same_hover a b = a.window_id == b.window_id && same_control a.control b.control

abbrev add_control : Geometry → List WindowInfo → WindowHover → Dirty → Dirty
add_control g windows hover dirty = elim (window_by_id windows hover.window_id) [
  | none ↦ dirty
  | some window ↦ add_rect g (window_control_rect window hover.control) dirty
]

-- The second half.
unfoldable pub hover_window : Desktop → PointerEvent → Input → Dirty → Input × Dirty
hover_window d event s dirty =
    let g = d.geometry in
    let top = top_window_at g d.windows event.x event.y in
    let hover =
      if not (is_dragging s.drag) && is_no_hit (hit_at d event)
      then hover_of g top event
      else no_hover in
    let dirty' = add_control g d.windows hover (add_control g d.windows s.hover dirty) in
    if same_hover hover s.hover then (s, dirty) else (record s { hover = hover }, dirty')

unfoldable pub update_control_hover : Desktop → PointerEvent → Input → Dirty → Input × Dirty
update_control_hover d event s dirty =
    let (s', dirty') = hover_tile d event s dirty in hover_window d event s' dirty'
