-- ===== src/Compositor/Input/Handle.antt =====
-- `handle_pointer_event` of graphics-compositor/src/input.cpp, `move_cursor` of presentation.cpp and
-- `handlePointerEventMessage` of main.cpp, that calls them.
use i_user_apps.Compositor.Input.Route.{route_pointer_to_window}
use i_user_apps.Compositor.Taskbar.Click.{taskbar_click}
use i_user_apps.Common.{
  ℕ, ◌*◌, ◌%◌, Bool, true, false, not, ◌&&◌, Option, none, some, List, [], ◌∷◌, ◌++◌, ◌==◌,
  if◌then◌else◌, add32, sub32,
}
use i_user_apps.Compositor.Window.{
  Rect, WindowInfo, WindowControl, border, title_bar_height, window_by_id, slt32,
}
use i_user_apps.Compositor.Taskbar.{TaskbarHit, Call, work_area_bottom}
use i_user_apps.Compositor.Input.{
  Desktop, PointerEvent, DragState, Input, window_damage_rect, top_window_at, pointer_on,
  pointer_on_resize_grip, pointer_on_titlebar, begin_move, begin_resize, clear_drag, layout_of,
  hit_at, shadow_margin,
}
use i_user_apps.Compositor.Input.Hover.{Dirty, add_rect, update_control_hover}

-- The calls of an event, and the area to be drawn again.
unfoldable pub move_window : Desktop → PointerEvent → DragState → Dirty → List Call × Dirty
move_window d event drag dirty =
    let new_x = sub32 event.x drag.grab_offset_x in
    let new_y = sub32 event.y drag.grab_offset_y in
    let call = Call.move drag.window_id new_x new_y in
    elim (window_by_id d.windows drag.window_id) [
      | none ↦ ([], dirty)
      | some before ↦
          let g = d.geometry in
          let old_frame = window_damage_rect before in
          let new_frame = g.offset old_frame (sub32 new_x before.x) (sub32 new_y before.y) in
          (
            call ∷ [],
            if d.accepts call then add_rect g (g.unite old_frame new_frame) dirty else dirty,
          )
    ]

abbrev at_least : ℕ → ℕ → ℕ
at_least least n = if slt32 n least then least else n

unfoldable pub resize_window : Desktop → PointerEvent → DragState → Dirty → List Call × Dirty
resize_window d event drag dirty =
    let new_width = at_least 64 (add32 drag.start_width (sub32 event.x drag.anchor_x)) in
    let new_height = at_least 48 (add32 drag.start_height (sub32 event.y drag.anchor_y)) in
    let call = Call.resize drag.window_id new_width new_height in
    elim (window_by_id d.windows drag.window_id) [
      | none ↦ ([], dirty)
      | some before ↦
          let g = d.geometry in
          let old_frame = window_damage_rect before in
          let new_frame : Rect = record {
            x = old_frame.x;
            y = old_frame.y;
            width = add32 (add32 new_width (border * 2)) (2 * shadow_margin);
            height = add32 (add32 (add32 new_height title_bar_height) border) (2 * shadow_margin);
          } in
          (
            call ∷ [],
            if d.accepts call then add_rect g (g.unite old_frame new_frame) dirty else dirty,
          )
    ]

-- Bit 0 of the buttons.
abbrev pub left_down : ℕ → Bool
left_down buttons = buttons % 2 == 1

unfoldable pub drag_window : Desktop → PointerEvent → DragState → Dirty → List Call × Dirty
drag_window d event drag dirty =
    if drag.moving && left_down event.buttons
    then move_window d event drag dirty
    else if drag.resizing && left_down event.buttons
    then resize_window d event drag dirty
    else ([], dirty)

-- The frame of a maximized window fills the work area.
unfoldable pub maximize_call : Desktop → WindowInfo → Call
maximize_call d window =
    let frame_height = sub32 (work_area_bottom d.screen_height) 8 in
    if window.maximized
    then Call.restore window.id
    else Call.maximize window.id (record {
      x = 8;
      y = 8;
      width = sub32 (sub32 d.screen_width 16) (2 * border);
      height = sub32 (sub32 frame_height title_bar_height) border;
    })

-- Whether all is to be drawn again, the calls, and the drag.
abbrev Pressed : Type 0
Pressed = Bool × List Call × DragState

unfoldable pub press_window : Desktop → WindowInfo → PointerEvent → DragState → Pressed
press_window d window event drag =
    let g = d.geometry in
    let focus = Call.focus window.id in
    if pointer_on g window WindowControl.close event.x event.y
    then (true, focus ∷ Call.close window.id ∷ [], clear_drag drag)
    else if pointer_on g window WindowControl.maximize event.x event.y
    then (true, focus ∷ maximize_call d window ∷ [], clear_drag drag)
    else if pointer_on g window WindowControl.minimize event.x event.y
    then (true, focus ∷ Call.minimize window.id ∷ [], clear_drag drag)
    else if pointer_on_resize_grip g window event.x event.y
    then (true, focus ∷ [], begin_resize window event.x event.y drag)
    else if pointer_on_titlebar g window event.x event.y
    then (true, focus ∷ [], begin_move window event.x event.y drag)
    else (true, focus ∷ [], drag)

unfoldable pub press_top : Desktop → PointerEvent → DragState → Option WindowInfo → Pressed
press_top d event drag none = (false, [], drag)
press_top d event drag (some window) = press_window d window event drag

unfoldable pub press_at : Desktop → PointerEvent → DragState → TaskbarHit → Pressed
press_at d event drag (TaskbarHit.tile_hit tile) =
    let (changed, calls) = taskbar_click (layout_of d) tile d.windows in
    (changed, calls, clear_drag drag)
press_at d event drag TaskbarHit.start_hit = (false, [], clear_drag drag)
press_at d event drag TaskbarHit.bar_hit = (false, [], clear_drag drag)
press_at d event drag TaskbarHit.no_hit =
    press_top d event drag (top_window_at d.geometry d.windows event.x event.y)

-- The left button goes down.
unfoldable pub press : Desktop → PointerEvent → DragState → Pressed
press d event drag = press_at d event drag (hit_at d event)

-- What the left button does to the drag.
unfoldable pub change_drag : Desktop → PointerEvent → ℕ → DragState → Pressed
change_drag d event previous drag =
    let was = left_down previous in
    let is = left_down event.buttons in
    if not was && is
    then press d event drag
    else if was && not is
    then (false, [], clear_drag drag)
    else (false, [], drag)

pub record Outcome : Type 0 where
  pub input : Input
  pub redraw : Bool
  pub calls : List Call
  pub dirty : Dirty

unfoldable pub handle_pointer_event : Desktop → PointerEvent → Input → Dirty → Outcome
handle_pointer_event d event s dirty =
    let (hovered, shown) = update_control_hover d event s dirty in
    let (dragged, dirty') = drag_window d event hovered.drag shown in
    let (redraw, calls, drag) = change_drag d event hovered.buttons hovered.drag in
    record {
      input = record hovered { buttons = event.buttons; drag = drag };
      redraw = redraw;
      calls = dragged ++ calls;
      dirty = dirty';
    }

abbrev hold_in : ℕ → ℕ → ℕ
hold_in size x =
    let last = sub32 size 1 in
    let most = if slt32 last 0 then 0 else last in
    if slt32 x 0 then 0 else if slt32 most x then most else x

unfoldable pub move_cursor : Desktop → PointerEvent → Input → Input
move_cursor d event s = record s {
  cursor_x = hold_in d.screen_width event.x;
  cursor_y = hold_in d.screen_height event.y;
}

-- The event is routed before it may begin a drag. What is posted is the second of the result.
unfoldable pub pointer_message :
    Desktop → PointerEvent → Input → Dirty → Outcome × Option (ℕ × PointerEvent)
pointer_message d event s dirty =
    let (grab, sent) = route_pointer_to_window d event s.drag s.grab in
    (handle_pointer_event d event (move_cursor d event (record s { grab = grab })) dirty, sent)
