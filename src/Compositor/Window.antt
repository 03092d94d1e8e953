-- ===== src/Compositor/Window.antt =====
-- The windows and rectangles of graphics-compositor/src/common.hpp. An `int` is its pattern of 32
-- bits. The methods of `ui::Rect` and `in_rounded_rect`, which are not in this repository, are a
-- parameter; of a window's state, the flags that the compositor tests are kept.
use i_user_apps.Common.CString.{codes, same_text}
use i_user_apps.Common.{
  ℕ, ◌+◌, ◌-◌, ◌*◌, ◌/◌, Bool, not, ◌||◌, Option, none, some, List, [], ◌∷◌, leb, ◌==◌,
  if◌then◌else◌, int_max, add32, sub32, sle32,
}

pub record Rect : Type 0 where
  pub x : ℕ
  pub y : ℕ
  pub width : ℕ
  pub height : ℕ

pub record Geometry : Type 0 where
  pub contains : Rect → ℕ → ℕ → Bool
  pub is_empty : Rect → Bool
  pub unite : Rect → Rect → Rect
  pub intersect : Rect → Rect → Rect
  pub offset : Rect → ℕ → ℕ → Rect
  pub right : Rect → ℕ
  pub in_rounded_rect : Rect → ℕ → ℕ → ℕ → Bool

pub record WindowInfo : Type 0 where
  pub id : ℕ
  pub x : ℕ
  pub y : ℕ
  pub width : ℕ
  pub height : ℕ
  pub surface_id : ℕ
  pub title : List ℕ
  pub focused : Bool
  pub minimized : Bool
  pub maximized : Bool
  pub closed : Bool

abbrev pub empty_rect : Rect
empty_rect = record { x = 0; y = 0; width = 0; height = 0 }

abbrev pub border : ℕ
border = 1

abbrev pub title_bar_height : ℕ
title_bar_height = 40

abbrev pub control_width : ℕ
control_width = 46

unfoldable pub frame_width : WindowInfo → ℕ
frame_width window = add32 window.width (border * 2)

unfoldable pub frame_height : WindowInfo → ℕ
frame_height window = add32 (add32 window.height title_bar_height) border

unfoldable pub is_window_visible : WindowInfo → Bool
is_window_visible window = not (window.minimized || window.closed)

unfoldable pub window_by_id : List WindowInfo → ℕ → Option WindowInfo
window_by_id [] id = none
window_by_id (window ∷ windows) id =
    let rest = window_by_id windows id in if window.id == id then some window else rest

pub data WindowControl : Type 0 where
  close maximize minimize : WindowControl

unfoldable pub slot_from_right : WindowControl → ℕ
slot_from_right WindowControl.close = 0
slot_from_right WindowControl.maximize = 1
slot_from_right WindowControl.minimize = 2

unfoldable pub window_control_rect : WindowInfo → WindowControl → Rect
window_control_rect window control = record {
  x =
      sub32 (sub32 (add32 window.x (frame_width window)) border)
        ((slot_from_right control + 1) * control_width);
  y = add32 window.y border;
  width = control_width;
  height = title_bar_height - border;
}

-- `compositor_list_windows` fails with `none`.
unfoldable pub fetch_windows : Option (List WindowInfo) → List WindowInfo
fetch_windows none = []
fetch_windows (some windows) = windows

abbrev title_icons : List (List ℕ)
title_icons =
    codes "Terminal"
    ∷ codes "File Browser"
    ∷ codes "Background Switcher"
    ∷ codes "Cube"
    ∷ codes "NetSurf"
    ∷ []

-- The loop of `title_icon_index`, from icon `i` on.
unfoldable pub icon_from : List (List ℕ) → List ℕ → ℕ → ℕ
icon_from [] title i = i
icon_from (icon ∷ icons) title i =
    let rest = icon_from icons title (i + 1) in if same_text title icon then i else rest

unfoldable pub title_icon_index : List ℕ → ℕ
title_icon_index title = icon_from title_icons title 0

unfoldable pub clamp_rect : Geometry → Rect → ℕ → ℕ → Rect
clamp_rect g rect width height =
    g.intersect rect (record { x = 0; y = 0; width = width; height = height })

-- `n / 2` and `a < b` on the patterns of `int`s.
abbrev pub half32 : ℕ → ℕ
half32 n = if leb n int_max then n / 2 else sub32 0 (sub32 0 n / 2)

abbrev pub slt32 : ℕ → ℕ → Bool
slt32 a b = not (sle32 b a)
