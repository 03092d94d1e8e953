-- ===== src/Compositor/Input/Drag.antt =====
-- The drags of graphics-compositor/src/input.cpp, over all sequences of pointer events.
use i_user_apps.Compositor.Input.Route.{route_pointer_to_window}
use i_user_apps.Compositor.Input.Hover.{hover_tile, hover_window, update_control_hover}
use i_user_apps.Common.{
  ℕ, ◌≡◌, refl, sym, ap, ◌∙◌, subst, inl, inr, Bool, true, false, ◌&&◌, Option, none, some, arith,
  if◌then◌else◌, Bool-cases,
}
use i_user_apps.Compositor.Window.{WindowInfo, WindowControl, Rect}
use i_user_apps.Compositor.Taskbar.{TaskbarHit}
use i_user_apps.Compositor.Input.{
  Desktop, PointerEvent, DragState, Input, pointer_on, pointer_on_resize_grip, pointer_on_titlebar,
  begin_move, begin_resize, clear_drag, is_dragging, hit_at,
}
use i_user_apps.Compositor.Input.Handle.{
  left_down, press_window, press_top, press_at, press, change_drag, handle_pointer_event,
  move_cursor, pointer_message,
}

-- A drag moves or resizes, not both, and without a drag there is no window of it.
pub record IsSound (drag : DragState) : Type 0 where
  pub one : (drag.moving && drag.resizing) ≡ false
  pub idle : is_dragging drag ≡ false → drag.window_id ≡ 0

clear_drag-IsSound : (drag : DragState) → IsSound (clear_drag drag)
unfolding clear_drag
clear_drag-IsSound drag = record { one = refl; idle = λ e. refl }

begin_move-IsSound :
    (window : WindowInfo) (x y : ℕ) (drag : DragState) → IsSound (begin_move window x y drag)
unfolding begin_move
begin_move-IsSound window x y drag = record { one = refl; idle = λ e. absurd cc }

begin_resize-IsSound :
    (window : WindowInfo) (x y : ℕ) (drag : DragState) → IsSound (begin_resize window x y drag)
unfolding begin_resize
begin_resize-IsSound window x y drag = record { one = refl; idle = λ e. absurd cc }

press_window-IsSound :
    (d : Desktop) (window : WindowInfo) (event : PointerEvent) (drag : DragState)
    → IsSound drag
    → IsSound (press_window d window event drag).2
unfolding press_window
press_window-IsSound d window event drag sound =
    let g = d.geometry in
    let cleared = clear_drag-IsSound drag in
    elim (Bool-cases (pointer_on g window WindowControl.close event.x event.y)) [
      | inl close ↦ rw close cleared
      | inr not_close ↦
          elim (Bool-cases (pointer_on g window WindowControl.maximize event.x event.y)) [
            | inl maximize ↦ rw (not_close, maximize) cleared
            | inr not_max ↦
                elim (Bool-cases (pointer_on g window WindowControl.minimize event.x event.y)) [
                  | inl minimize ↦ rw (not_close, not_max, minimize) cleared
                  | inr not_min ↦
                      elim (Bool-cases (pointer_on_resize_grip g window event.x event.y)) [
                        | inl grip ↦
                            rw (not_close, not_max, not_min, grip)
                              (begin_resize-IsSound window event.x event.y drag)
                        | inr not_grip ↦
                            elim (Bool-cases (pointer_on_titlebar g window event.x event.y)) [
                              | inl title ↦
                                  rw (not_close, not_max, not_min, not_grip, title)
                                    (begin_move-IsSound window event.x event.y drag)
                              | inr content ↦
                                  rw (not_close, not_max, not_min, not_grip, content) sound
                            ]
                      ]
                ]
          ]
    ]

press_top-IsSound :
    (d : Desktop) (event : PointerEvent) (drag : DragState) (top : Option WindowInfo)
    → IsSound drag
    → IsSound (press_top d event drag top).2
unfolding press_top
press_top-IsSound d event drag none sound = sound
press_top-IsSound d event drag (some window) sound = press_window-IsSound d window event drag sound

press_at-IsSound :
    (d : Desktop) (event : PointerEvent) (drag : DragState) (hit : TaskbarHit)
    → IsSound drag
    → IsSound (press_at d event drag hit).2
unfolding press_at
press_at-IsSound d event drag (TaskbarHit.tile_hit tile) sound = clear_drag-IsSound drag
press_at-IsSound d event drag TaskbarHit.start_hit sound = clear_drag-IsSound drag
press_at-IsSound d event drag TaskbarHit.bar_hit sound = clear_drag-IsSound drag
press_at-IsSound d event drag TaskbarHit.no_hit sound = press_top-IsSound d event drag _ sound

-- A drag goes on only while the left button is down.
pub record IsHeld (buttons : ℕ) (drag : DragState) : Type 0 where
  pub sound : IsSound drag
  pub held : is_dragging drag ≡ true → left_down buttons ≡ true

change_drag-IsHeld :
    (d : Desktop) (event : PointerEvent) (previous : ℕ) (drag : DragState)
    → IsHeld previous drag
    → IsHeld event.buttons (change_drag d event previous drag).2
unfolding change_drag press clear_drag
change_drag-IsHeld d event previous drag old = elim (Bool-cases (left_down previous)) [
  | inl was ↦ elim (Bool-cases (left_down event.buttons)) [
    | inl is ↦ rw (was, is) (record { sound = old.sound; held = λ e. is })
    | inr released ↦
        rw (was, released) (record { sound = clear_drag-IsSound drag; held = λ e. absurd cc })
  ]
  | inr up ↦ elim (Bool-cases (left_down event.buttons)) [
    | inl is ↦
        rw (up, is)
          (record {
            sound = press_at-IsSound d event drag (hit_at d event) old.sound;
            held = λ e. is;
          })
    | inr still ↦
        rw (up, still)
          (record { sound = old.sound; held = λ e. absurd (ground (arith, old.held e, up)) })
  ]
]

-- What shows where the pointer is changes neither the drag nor the buttons.
record SameDrag (s u : Input) : Type 0 where
  drag : u.drag ≡ s.drag
  buttons : u.buttons ≡ s.buttons
  grab : u.grab ≡ s.grab

SameDrag-refl : (s : Input) → SameDrag s s
SameDrag-refl s = record { drag = refl; buttons = refl; grab = refl }

either-SameDrag :
    (s : Input) (test : Bool) (a b : Input × Option Rect)
    → SameDrag s a.0
    → SameDrag s b.0
    → SameDrag s (if test then a else b).0
either-SameDrag s true a b same_a same_b = same_a
either-SameDrag s false a b same_a same_b = same_b

hover_tile-SameDrag :
    (d : Desktop) (event : PointerEvent) (s : Input) (dirty : Option Rect)
    → SameDrag s (hover_tile d event s dirty).0
unfolding hover_tile
hover_tile-SameDrag d event s dirty =
    either-SameDrag s _ _ _ (SameDrag-refl s) (record { drag = refl; buttons = refl; grab = refl })

hover_window-SameDrag :
    (d : Desktop) (event : PointerEvent) (s : Input) (dirty : Option Rect)
    → SameDrag s (hover_window d event s dirty).0
unfolding hover_window
hover_window-SameDrag d event s dirty =
    either-SameDrag s _ _ _ (SameDrag-refl s) (record { drag = refl; buttons = refl; grab = refl })

update_control_hover-SameDrag :
    (d : Desktop) (event : PointerEvent) (s : Input) (dirty : Option Rect)
    → SameDrag s (update_control_hover d event s dirty).0
unfolding update_control_hover
update_control_hover-SameDrag d event s dirty =
    let first = hover_tile-SameDrag d event s dirty in
    let after = hover_tile d event s dirty in
    let second = hover_window-SameDrag d event after.0 after.1 in
    record {
      drag = second.drag ∙ first.drag;
      buttons = second.buttons ∙ first.buttons;
      grab = second.grab ∙ first.grab;
    }

-- The window that holds the pointer and the drag after an event, and its buttons.
pub record After (d : Desktop) (event : PointerEvent) (s u : Input) : Type 0 where
  pub drag : u.drag ≡ (change_drag d event s.buttons s.drag).2
  pub buttons : u.buttons ≡ event.buttons
  pub grab : u.grab ≡ (route_pointer_to_window d event s.drag s.grab).0

pub pointer_message-After :
    (d : Desktop) (event : PointerEvent) (s : Input) (dirty : Option Rect)
    → After d event s (pointer_message d event s dirty).0.input
unfolding pointer_message handle_pointer_event move_cursor
pointer_message-After d event s dirty =
    let routed = route_pointer_to_window d event s.drag s.grab in
    let moved = move_cursor d event (record s { grab = routed.0 }) in
    let same = update_control_hover-SameDrag d event moved dirty in
    record {
      drag =
          ap (λ b. (change_drag d event b (update_control_hover d event moved dirty).0.drag).2)
            same.buttons
          ∙ ap (λ g. (change_drag d event s.buttons g).2) same.drag;
      buttons = refl;
      grab = same.grab;
    }

abbrev pub first_input : ℕ → ℕ → Input
first_input x y = record {
  drag = record {
    window_id = 0;
    moving = false;
    resizing = false;
    grab_offset_x = 0;
    grab_offset_y = 0;
    anchor_x = 0;
    anchor_y = 0;
    start_width = 0;
    start_height = 0;
  };
  buttons = 0;
  hover = record { window_id = 0; control = WindowControl.close };
  taskbar_hover = none;
  grab = 0;
  cursor_x = x;
  cursor_y = y;
}

-- The windows may be others at each event.
pub data ReachInput : Input → Type 0 where
  started : (x y : ℕ) → ReachInput (first_input x y)
  pointed :
      (d : Desktop) (event : PointerEvent) (dirty : Option Rect) (s : Input)
      → ReachInput s
      → ReachInput (pointer_message d event s dirty).0.input

-- After any pointer events, the compositor does not move and resize at once, it does so only while
-- the left button is down, and without a drag no window is noted for one.
pub ReachInput-IsHeld : (s : Input) → ReachInput s → IsHeld s.buttons s.drag
ReachInput-IsHeld _ (ReachInput.started x y) = record {
  sound = record { one = refl; idle = λ e. refl };
  held = λ e. absurd cc;
}
ReachInput-IsHeld _ (ReachInput.pointed d event dirty s reach) =
    let after = pointer_message-After d event s dirty in
    subst (λ b. IsHeld b (pointer_message d event s dirty).0.input.drag) (sym after.buttons)
      (subst (IsHeld event.buttons) (sym after.drag)
        (change_drag-IsHeld d event s.buttons s.drag (ReachInput-IsHeld s reach)))
