-- ===== src/Compositor/Input/Grip.antt =====
-- The resize grip in graphics-compositor/src/input.cpp: who holds the pointer after it was used.
use i_user_apps.Compositor.Input.Route.{route_pointer_to_window, route_target, content_rect}
use i_user_apps.Common.{ℕ, ◌≡◌, refl, ap, ◌∙◌, true, false, Option, some, arith, ◌==◌}
use i_user_apps.Compositor.Window.{WindowInfo, WindowControl, Rect}
use i_user_apps.Compositor.Taskbar.{TaskbarHit}
use i_user_apps.Compositor.Input.{
  Desktop, PointerEvent, DragState, Input, top_window_at, pointer_on, pointer_on_resize_grip,
  begin_resize, clear_drag, is_dragging, hit_at,
}
use i_user_apps.Compositor.Input.Handle.{
  left_down, press_window, press_top, press_at, press, change_drag, pointer_message,
}
use i_user_apps.Compositor.Input.Drag.{pointer_message-After}

-- The left button goes down on the resize grip of the topmost window, which is a part of its content.
pub record GripPress (d : Desktop) (event : PointerEvent) (window : WindowInfo) : Type 0 where
  pub action : event.is_button ≡ true
  pub down : left_down event.buttons ≡ true
  pub taskbar : hit_at d event ≡ TaskbarHit.no_hit
  pub top : top_window_at d.geometry d.windows event.x event.y ≡ some window
  pub content : d.geometry.contains (content_rect window) event.x event.y ≡ true
  pub not_close : pointer_on d.geometry window WindowControl.close event.x event.y ≡ false
  pub not_maximize : pointer_on d.geometry window WindowControl.maximize event.x event.y ≡ false
  pub not_minimize : pointer_on d.geometry window WindowControl.minimize event.x event.y ≡ false
  pub grip : pointer_on_resize_grip d.geometry window event.x event.y ≡ true

-- As events are not routed during a drag, the window that held the pointer before holds it after.
pointer_message-keeps_grab :
    (d : Desktop) (event : PointerEvent) (s : Input) (dirty : Option Rect)
    → is_dragging s.drag ≡ true
    → left_down s.buttons ≡ true
    → event.buttons ≡ 0
    → ((pointer_message d event s dirty).0.input.grab ≡ s.grab)
      × (((pointer_message d event s dirty).0.input.buttons ≡ 0)
          × (is_dragging (pointer_message d event s dirty).0.input.drag ≡ false))
unfolding route_pointer_to_window change_drag clear_drag
pointer_message-keeps_grab d event s dirty dragging down up =
    let after = pointer_message-After d event s dirty in
    let released : left_down event.buttons ≡ false = rw up refl in
    let kept : (route_pointer_to_window d event s.drag s.grab).0 ≡ s.grab = rw dragging refl in
    let ended : is_dragging (change_drag d event s.buttons s.drag).2 ≡ false =
      rw (down, released) refl in
    (after.grab ∙ kept, (after.buttons ∙ up, ap is_dragging after.drag ∙ ended))

grip-press :
    (d : Desktop) (event : PointerEvent) (drag : DragState) (window : WindowInfo) (previous : ℕ)
    → GripPress d event window
    → left_down previous ≡ false
    → is_dragging (change_drag d event previous drag).2 ≡ true
unfolding change_drag press press_at press_top press_window begin_resize
grip-press d event drag window previous on up =
    rw (up, on.down, on.taskbar, on.top, on.not_close, on.not_maximize, on.not_minimize, on.grip)
      refl

grip-route :
    (d : Desktop) (event : PointerEvent) (drag : DragState) (window : WindowInfo)
    → GripPress d event window
    → is_dragging drag ≡ false
    → (route_pointer_to_window d event drag 0).0 ≡ window.id
unfolding route_pointer_to_window route_target
grip-route d event drag window on idle =
    let some_down : (event.buttons == 0) ≡ false = ground (arith, on.down) in
    rw (idle, on.taskbar, on.top, on.content, on.action, some_down) refl

-- When no window holds the pointer and the left button goes down on a window's resize grip and all
-- buttons go up in the next event, that window holds the pointer, though no drag is left.
pub pointer_message-grip :
    (d d' : Desktop) (event event' : PointerEvent) (s : Input) (dirty dirty' : Option Rect)
    → (window : WindowInfo) → GripPress d event window
    → is_dragging s.drag ≡ false
    → s.grab ≡ 0
    → left_down s.buttons ≡ false
    → event'.buttons ≡ 0
    → ((pointer_message d' event' (pointer_message d event s dirty).0.input dirty').0.input.grab
        ≡ window.id)
      × ((pointer_message d' event'
            (pointer_message d event s dirty).0.input
            dirty').0.input.buttons
          ≡ 0)
      × (is_dragging
            (pointer_message d' event'
              (pointer_message d event s dirty).0.input
              dirty').0.input.drag
          ≡ false)
pointer_message-grip d d' event event' s dirty dirty' window on idle free up released =
    let after = pointer_message-After d event s dirty in
    let mid = (pointer_message d event s dirty).0.input in
    let dragging = ap is_dragging after.drag ∙ grip-press d event s.drag window s.buttons on up in
    let down = ap left_down after.buttons ∙ on.down in
    let held =
      after.grab
      ∙ ap (λ k. (route_pointer_to_window d event s.drag k).0) free
      ∙ grip-route d event s.drag window on idle in
    let (kept, (buttons, ended)) =
      pointer_message-keeps_grab d' event' mid dirty' dragging down released in
    (kept ∙ held, buttons, ended)
