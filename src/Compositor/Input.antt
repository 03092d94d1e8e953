-- ===== src/Compositor/Input.antt =====
-- The pointer of graphics-compositor/src/input.cpp: the controls and tiles
-- under it, and how the moving and resizing of windows begins and ends. The child modules have the
-- routing of its events to windows and their handling.
pub mod Route
pub mod Hover
pub mod Handle
pub mod Drag
pub mod Grip
use i_user_apps.Compositor.Taskbar.Click.{taskbar_hit, taskbar_tooltip_rect, taskbar_click}
use i_user_apps.Common.{
  ℕ, ◌+◌, ◌-◌, ◌*◌, Bool, true, false, not, ◌&&◌, ◌||◌, Option, none, some, List, [], ◌∷◌,
  if◌then◌else◌, add32, sub32, mul32, sle32,
}
use i_user_apps.Compositor.Window.{
  Rect, Geometry, WindowInfo, WindowControl, border, title_bar_height, frame_width, frame_height,
  is_window_visible, window_by_id, window_control_rect, half32, slt32, empty_rect,
}
use i_user_apps.Compositor.Taskbar.{
  TaskbarLayout, TaskbarHit, TaskbarTile, Call, taskbar_layout, work_area_bottom,
}

-- What the handlers are given, and what they ask of others: the windows from the lowest to the
-- topmost, the size of the screen, whether the kernel does what a call asks for, and the font.
pub record Desktop : Type 0 where
  pub geometry : Geometry
  pub text_width : List ℕ → ℕ
  pub accepts : Call → Bool
  pub screen_width : ℕ
  pub screen_height : ℕ
  pub windows : List WindowInfo

-- `is_button` is the action `Button`.
pub record PointerEvent : Type 0 where
  pub x : ℕ
  pub y : ℕ
  pub buttons : ℕ
  pub is_button : Bool

pub record DragState : Type 0 where
  pub window_id : ℕ
  pub moving : Bool
  pub resizing : Bool
  pub grab_offset_x : ℕ
  pub grab_offset_y : ℕ
  pub anchor_x : ℕ
  pub anchor_y : ℕ
  pub start_width : ℕ
  pub start_height : ℕ

pub record WindowHover : Type 0 where
  pub window_id : ℕ
  pub control : WindowControl

-- `taskbar_hover` is none for -1; `grab` is 0 for no window.
pub record Input : Type 0 where
  pub drag : DragState
  pub buttons : ℕ
  pub hover : WindowHover
  pub taskbar_hover : Option ℕ
  pub grab : ℕ
  pub cursor_x : ℕ
  pub cursor_y : ℕ

abbrev corner_radius : ℕ
corner_radius = 12

abbrev resize_grip_size : ℕ
resize_grip_size = 14

abbrev pub shadow_margin : ℕ
shadow_margin = 24 + 10

abbrev smaller : ℕ → ℕ → ℕ
smaller a b = if slt32 b a then b else a

abbrev square : ℕ → ℕ
square d = mul32 d d

-- With the radius already held to half of both sides.
unfoldable pub in_corners : Rect → ℕ → ℕ → ℕ → Bool
in_corners rect radius x y =
    let left = add32 rect.x radius in
    let right = sub32 (sub32 (add32 rect.x rect.width) radius) 1 in
    let dx = sub32 x (if slt32 x left then left else right) in
    let dy = sub32 y (add32 rect.y radius) in
    if sle32 radius 0 || sle32 (add32 rect.y radius) y
    then true
    else if sle32 left x && sle32 x right
    then true
    else sle32 (add32 (square dx) (square dy)) (square radius)

unfoldable pub in_top_rounded_rect : Geometry → Rect → ℕ → ℕ → ℕ → Bool
in_top_rounded_rect g rect radius x y =
    if g.is_empty rect || not (g.contains rect x y)
    then false
    else in_corners rect (smaller (smaller radius (half32 rect.width)) (half32 rect.height)) x y

unfoldable pub window_frame_rect : WindowInfo → Rect
window_frame_rect window = record {
  x = window.x;
  y = window.y;
  width = frame_width window;
  height = frame_height window;
}

unfoldable pub window_damage_rect : WindowInfo → Rect
window_damage_rect window =
    let frame = window_frame_rect window in
    record {
      x = sub32 frame.x shadow_margin;
      y = sub32 frame.y shadow_margin;
      width = add32 frame.width (2 * shadow_margin);
      height = add32 frame.height (2 * shadow_margin);
    }

-- The loop goes from the last window to the first.
unfoldable pub top_window_at : Geometry → List WindowInfo → ℕ → ℕ → Option WindowInfo
top_window_at g [] x y = none
top_window_at g (window ∷ above) x y = elim (top_window_at g above x y) [
  | some top ↦ some top
  | none ↦
      if is_window_visible window && g.in_rounded_rect (window_frame_rect window) corner_radius x y
      then some window
      else none
]

unfoldable pub pointer_on : Geometry → WindowInfo → WindowControl → ℕ → ℕ → Bool
pointer_on g window control x y = g.contains (window_control_rect window control) x y

unfoldable pub window_control_at : Geometry → WindowInfo → ℕ → ℕ → Option WindowControl
window_control_at g window x y =
    if pointer_on g window WindowControl.close x y
    then some WindowControl.close
    else if pointer_on g window WindowControl.maximize x y
    then some WindowControl.maximize
    else if pointer_on g window WindowControl.minimize x y
    then some WindowControl.minimize
    else none

unfoldable pub pointer_on_resize_grip : Geometry → WindowInfo → ℕ → ℕ → Bool
pointer_on_resize_grip g window x y =
    let grip : Rect = record {
      x = sub32 (sub32 (add32 window.x (frame_width window)) border) resize_grip_size;
      y = sub32 (sub32 (add32 window.y (frame_height window)) border) resize_grip_size;
      width = resize_grip_size;
      height = resize_grip_size;
    } in
    g.contains grip x y

unfoldable pub pointer_on_titlebar : Geometry → WindowInfo → ℕ → ℕ → Bool
pointer_on_titlebar g window x y =
    let bar : Rect = record {
      x = add32 window.x border;
      y = add32 window.y border;
      width = window.width;
      height = title_bar_height - border;
    } in
    in_top_rounded_rect g bar (corner_radius - border) x y

unfoldable pub begin_move : WindowInfo → ℕ → ℕ → DragState → DragState
begin_move window x y drag = record drag {
  window_id = window.id;
  moving = true;
  resizing = false;
  grab_offset_x = sub32 x window.x;
  grab_offset_y = sub32 y window.y;
}

unfoldable pub begin_resize : WindowInfo → ℕ → ℕ → DragState → DragState
begin_resize window x y drag = record drag {
  window_id = window.id;
  moving = false;
  resizing = true;
  anchor_x = x;
  anchor_y = y;
  start_width = window.width;
  start_height = window.height;
}

unfoldable pub clear_drag : DragState → DragState
clear_drag drag = record drag { window_id = 0; moving = false; resizing = false }

abbrev pub is_dragging : DragState → Bool
is_dragging drag = drag.moving || drag.resizing

abbrev pub layout_of : Desktop → TaskbarLayout
layout_of d = taskbar_layout d.screen_width d.screen_height d.windows

abbrev pub hit_at : Desktop → PointerEvent → TaskbarHit
hit_at d event = taskbar_hit d.geometry (layout_of d) event.x event.y

abbrev pub is_no_hit : TaskbarHit → Bool
is_no_hit TaskbarHit.no_hit = true
is_no_hit _ = false
