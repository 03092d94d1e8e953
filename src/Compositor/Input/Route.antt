-- ===== src/Compositor/Input/Route.antt =====
-- route_pointer_to_window of graphics-compositor/src/input.cpp: which window gets an event.
use i_user_apps.Common.{ℕ, Option, none, some, ◌==◌, if◌then◌else◌, add32, sub32}
use i_user_apps.Compositor.Window.{
  Rect, Geometry, WindowInfo, border, title_bar_height, window_by_id,
}
use i_user_apps.Compositor.Input.{
  Desktop, PointerEvent, DragState, top_window_at, is_dragging, hit_at, is_no_hit,
}

-- The window's own part of its frame.
unfoldable pub content_rect : WindowInfo → Rect
content_rect window = record {
  x = add32 window.x border;
  y = add32 window.y title_bar_height;
  width = window.width;
  height = window.height;
}

abbrev content_at : Geometry → Option WindowInfo → PointerEvent → Option WindowInfo
content_at g none event = none
content_at g (some top) event =
    if g.contains (content_rect top) event.x event.y then some top else none

abbrev held_window : Desktop → ℕ → Option WindowInfo
held_window d grab = if grab == 0 then none else window_by_id d.windows grab

-- The window that an event is for, and the one that holds the pointer until then.
unfoldable pub route_target : Desktop → ℕ → PointerEvent → ℕ × Option WindowInfo
route_target d grab event = elim (held_window d grab) [
  | some held ↦ (grab, some held)
  | none ↦ (
    0,
    if is_no_hit (hit_at d event)
        then content_at d.geometry (top_window_at d.geometry d.windows event.x event.y) event
        else none,
  )
]

abbrev local_event : WindowInfo → PointerEvent → PointerEvent
local_event target event = record event {
  x = sub32 event.x (add32 target.x border);
  y = sub32 event.y (add32 target.y title_bar_height);
}

abbrev grab_after : PointerEvent → WindowInfo → ℕ → ℕ
grab_after event target grab =
    if event.is_button then (if event.buttons == 0 then 0 else target.id) else grab

abbrev posted : PointerEvent → ℕ × Option WindowInfo → ℕ × Option (ℕ × PointerEvent)
posted event (grab, none) = (grab, none)
posted event (grab, some target) =
    (grab_after event target grab, some (target.id, local_event target event))

-- The window that holds the pointer, and the event that is posted to a window.
unfoldable pub route_pointer_to_window :
    Desktop → PointerEvent → DragState → ℕ → ℕ × Option (ℕ × PointerEvent)
route_pointer_to_window d event drag grab =
    if is_dragging drag then (grab, none) else posted event (route_target d grab event)
