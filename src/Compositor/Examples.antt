-- ===== src/Compositor/Examples.antt =====
-- The theorems on the compositor at small inputs.
use i_user_apps.Compositor.Texts.{has_png_suffix, format_date}
use i_user_apps.Compositor.Present.{Picture, present_rect}
use i_user_apps.Compositor.Present.Area.{Clips, FitsPitch, present_rect-eq}
use i_user_apps.Compositor.Input.Grip.{GripPress}
use i_user_apps.Compositor.Surfaces.History.{Event, committed_one, listed_windows}
use i_user_apps.Compositor.Input.Grip.{pointer_message-grip}
use i_user_apps.Common.{
  ℕ, ◌+◌, ◌-◌, ◌*◌, ◌≡◌, refl, Bool, true, false, ◌&&◌, ◌||◌, none, List, [], ◌∷◌, ◌++◌, arith, ltb,
  leb, ◌==◌, if◌then◌else◌, length, replicate, All, add32, reverse,
}
use i_user_apps.Common.CString.{codes}
use i_user_apps.Compositor.Window.{Rect, Geometry, WindowInfo, clamp_rect}
use i_user_apps.Compositor.Surfaces.{
  SurfaceInfo, Cache, remember_surface, forget_unshown_surfaces, pump_surface_updates,
  find_surface_cache, is_shown,
}
use i_user_apps.Compositor.Surfaces.Reach.{ReachCache, IsTracked, ReachCache-IsTracked, first_cache}
use i_user_apps.Compositor.Surfaces.Lists.{
  forget_lists, Answers, remember_surface-Answers, forget_lists-forgets,
}
use i_user_apps.Compositor.Taskbar.{pinned_count, taskbar_layout}
use i_user_apps.Compositor.Taskbar.Tiles.{Oldest, unpinned_ids, tile_ids, taskbar_layout-Oldest}
use i_user_apps.Compositor.Input.{Desktop, PointerEvent, Input, is_dragging}
use i_user_apps.Compositor.Input.Handle.{pointer_message}
use i_user_apps.Compositor.Input.Drag.{IsHeld, ReachInput, ReachInput-IsHeld, first_input}
use i_user_apps.Compositor.Pixels.{Words}

abbrev opaque : Words
opaque i = 0xff00_0000 + i

abbrev old_pixels : Words
old_pixels i = 7

-- `ui::Rect`, as its methods are documented to work, on coordinates that are not negative.
abbrev inside : Rect → ℕ → ℕ → Bool
inside rect x y =
    leb rect.x x && ltb x (rect.x + rect.width) && leb rect.y y && ltb y (rect.y + rect.height)

abbrev no_area : Rect → Bool
no_area rect = rect.width == 0 || rect.height == 0

abbrev lesser : ℕ → ℕ → ℕ
lesser a b = if leb a b then a else b

abbrev greater : ℕ → ℕ → ℕ
greater a b = if leb a b then b else a

abbrev hull : Rect → Rect → Rect
hull a b = if no_area a then b else if no_area b then a else record {
  x = lesser a.x b.x;
  y = lesser a.y b.y;
  width = greater (a.x + a.width) (b.x + b.width) - lesser a.x b.x;
  height = greater (a.y + a.height) (b.y + b.height) - lesser a.y b.y;
}

abbrev common_part : Rect → Rect → Rect
common_part a b = record {
  x = greater a.x b.x;
  y = greater a.y b.y;
  width = lesser (a.x + a.width) (b.x + b.width) - greater a.x b.x;
  height = lesser (a.y + a.height) (b.y + b.height) - greater a.y b.y;
}

abbrev sample_geometry : Geometry
sample_geometry = record {
  contains = inside;
  is_empty = no_area;
  unite = hull;
  intersect = common_part;
  offset = λ r dx dy. record r { x = add32 r.x dx; y = add32 r.y dy };
  right = λ r. r.x + r.width;
  in_rounded_rect = λ r radius x y. inside r x y;
}

abbrev sample_surface : SurfaceInfo
sample_surface = record {
  id = 7;
  width = 100;
  height = 80;
  dirty_x = 0;
  dirty_y = 0;
  dirty_width = 100;
  dirty_height = 80;
}

abbrev sample_window : WindowInfo
sample_window = record {
  id = 3;
  x = 10;
  y = 20;
  width = 100;
  height = 80;
  surface_id = 7;
  title = codes "Editor";
  focused = true;
  minimized = false;
  maximized = false;
  closed = false;
}

-- A program commits a surface, and a list of windows has it.
abbrev sample_cache : Cache
sample_cache =
    forget_unshown_surfaces
      (pump_surface_updates sample_geometry first_cache (sample_surface ∷ [])).1
      (sample_window ∷ [])

abbrev sample_history : List Event
sample_history = listed_windows (sample_window ∷ []) ∷ committed_one 7 ∷ []

sample_reach : ReachCache sample_geometry sample_history sample_cache
sample_reach =
    ReachCache.listed (committed_one 7 ∷ []) _ (sample_window ∷ [])
      (ReachCache.pumped [] first_cache (sample_surface ∷ []) ReachCache.started)

sample_cache-IsTracked : IsTracked sample_history sample_cache
sample_cache-IsTracked =
    ReachCache-IsTracked sample_geometry sample_history sample_cache sample_reach

ReachCache-IsTracked_example : IsTracked sample_history sample_cache
ReachCache-IsTracked_example =
    ReachCache-IsTracked sample_geometry sample_history sample_cache sample_reach

abbrev eight_lists : List (List WindowInfo)
eight_lists = replicate 8 []

remember_surface-Answers_example :
    Answers
      (forget_lists (remember_surface sample_geometry sample_cache sample_surface) eight_lists)
      sample_surface
remember_surface-Answers_example =
    remember_surface-Answers sample_geometry sample_cache sample_surface eight_lists
      sample_cache-IsTracked.valid (λ e. omega (arith, e)) (omega arith)

unshown : All (λ windows. is_shown windows 7 ≡ false) ([] ∷ eight_lists)
unfolding is_shown
unshown = (refl, (refl, (refl, (refl, (refl, (refl, (refl, (refl, (refl, tt)))))))))

forget_lists-forgets_example :
    find_surface_cache (forget_lists sample_cache ([] ∷ eight_lists)) 7 ≡ none
forget_lists-forgets_example =
    forget_lists-forgets sample_cache 7 ([] ∷ eight_lists) sample_cache-IsTracked.valid unshown
      (omega arith)

taskbar_layout-Oldest_example :
    (tiles : List ℕ) × ((rest : List ℕ) × (Oldest (unpinned_ids (sample_window ∷ [])) tiles rest
        × (tile_ids (taskbar_layout 800 600 (sample_window ∷ [])).tiles
            ≡ replicate pinned_count 0 ++ reverse tiles)))
taskbar_layout-Oldest_example = taskbar_layout-Oldest 800 600 (sample_window ∷ [])

abbrev sample_desktop : Desktop
sample_desktop = record {
  geometry = sample_geometry;
  text_width = λ text. 8 * length text;
  accepts = λ call. true;
  screen_width = 800;
  screen_height = 600;
  windows = sample_window ∷ [];
}

-- On the grip, and one pixel further with the buttons up.
abbrev grip_press : PointerEvent
grip_press = record { x = 105; y = 135; buttons = 1; is_button = true }

abbrev grip_release : PointerEvent
grip_release = record { x = 106; y = 135; buttons = 0; is_button = true }

abbrev pressed_input : Input
pressed_input = (pointer_message sample_desktop grip_press (first_input 0 0) none).0.input

ReachInput-IsHeld_example : IsHeld pressed_input.buttons pressed_input.drag
ReachInput-IsHeld_example =
    ReachInput-IsHeld pressed_input
      (ReachInput.pointed sample_desktop grip_press none (first_input 0 0) (ReachInput.started 0 0))

grip_press-on : GripPress sample_desktop grip_press sample_window
unfolding taskbar_layout i_user_apps.Compositor.Taskbar.Click.taskbar_hit
    i_user_apps.Compositor.Taskbar.taskbar_bar_rect i_user_apps.Compositor.Input.top_window_at
    i_user_apps.Compositor.Window.is_window_visible i_user_apps.Compositor.Input.window_frame_rect
    i_user_apps.Compositor.Window.frame_width i_user_apps.Compositor.Window.frame_height
    i_user_apps.Compositor.Input.Route.content_rect i_user_apps.Compositor.Input.pointer_on
    i_user_apps.Compositor.Window.window_control_rect i_user_apps.Compositor.Window.slot_from_right
    i_user_apps.Compositor.Input.pointer_on_resize_grip
grip_press-on = record {
  action = refl;
  down = refl;
  taskbar = refl;
  top = refl;
  content = refl;
  not_close = refl;
  not_maximize = refl;
  not_minimize = refl;
  grip = refl;
}

pointer_message-grip_example :
    ((pointer_message sample_desktop grip_release pressed_input none).0.input.grab ≡ 3)
    × ((pointer_message sample_desktop grip_release pressed_input none).0.input.buttons ≡ 0)
    × (is_dragging (pointer_message sample_desktop grip_release pressed_input none).0.input.drag
        ≡ false)
pointer_message-grip_example =
    pointer_message-grip sample_desktop sample_desktop grip_press grip_release (first_input 0 0)
      none none sample_window grip_press-on refl refl refl refl

sample_geometry-Clips : Clips sample_geometry
unfolding clamp_rect
sample_geometry-Clips rect width height some_left =
    (ground (arith, some_left), ground (arith, some_left))

-- A scene of two pixels by two, and a framebuffer with a longer pitch.
abbrev sample_scene : Picture
sample_scene = record { pixels = opaque; width = 2; height = 2; pitch = 2 }

abbrev sample_screen : Picture
sample_screen = record { pixels = old_pixels; width = 2; height = 2; pitch = 4 }

abbrev lower_row : Rect
lower_row = record { x = 0; y = 1; width = 9; height = 9 }

scene-FitsPitch : FitsPitch sample_scene
scene-FitsPitch = record {
  row = omega arith;
  width_small = omega arith;
  height_small = omega arith;
  small = omega arith;
}

screen-FitsPitch : FitsPitch sample_screen
screen-FitsPitch = record {
  row = omega arith;
  width_small = omega arith;
  height_small = omega arith;
  small = omega arith;
}

present_rect-eq_example :
    (present_rect sample_geometry sample_scene sample_screen lower_row).0 5 ≡ 3
unfolding clamp_rect
present_rect-eq_example =
    present_rect-eq sample_geometry sample_scene sample_screen lower_row 1 1 sample_geometry-Clips
      scene-FitsPitch screen-FitsPitch (omega arith)

shown_date : format_date 29 10 2026 24 ≡ codes "29 Oct 2026"
unfolding format_date i_user_apps.Compositor.Texts.month_name
    i_user_apps.Compositor.Texts.year_digits
shown_date = refl

png_name : has_png_suffix (codes "instantos_2.PNG") ≡ true
unfolding has_png_suffix i_user_apps.Compositor.Texts.is_png
png_name = refl
