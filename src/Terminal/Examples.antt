-- ===== src/Terminal/Examples.antt =====
-- Runs of the terminal of terminal/src/main.cpp on a screen of 3 rows and 8 columns.
use i_user_apps.Common.{ℕ, ◌≡◌, refl, false, true, List, [], ◌∷◌, ◌++◌, arith, some, length, ◌≤◌}
use i_user_apps.Common.Decimal.{decimal_from, AllDigits}
use i_user_apps.Terminal.State.{
  Cell, Terminal, ground_state, csi, color_background, color_default_fg,
}
use i_user_apps.Terminal.Invariant.{IsValid, ParamsFit, Covers}
use i_user_apps.Terminal.Grid.{write}
use i_user_apps.Terminal.Screen.{touch_rows, put_cell, wrap_line, put_char}
use i_user_apps.Terminal.Csi.{cursor_up, cursor_position, erase_display, erase_line, handle_csi}
use i_user_apps.Terminal.Parser.{
  feed_ground, feed_escape, csi_digit, csi_separator, feed_csi, feed_in, parser_feed, feed_bytes,
}
use i_user_apps.Terminal.Parser.Feed.{NoOverflows, feed_bytes-IsValid, feed_bytes-Covers}
use i_user_apps.Terminal.Parser.Text.{feed_bytes-text}
use i_user_apps.Terminal.Parser.Position.{MovedTo, feed-position}
use i_user_apps.Terminal.Screen.Text.{Written}
use i_user_apps.Terminal.Csi.Erase.{erase_cell}
use i_user_apps.Terminal.Csi.Overflow.{handle_csi_up-faulted}
use i_user_apps.Terminal.Fit.{fit_count, fit_grid}
use i_user_apps.Terminal.Fit.Cursor.{CanFit, Fits, fit_grid-Fits}
use i_user_apps.Terminal.Keys.{
  KeyCodes, KeyEvent, key_table, find_case, key_sequence, translate_key,
}
use i_user_apps.Terminal.Keys.Bytes.{translate_key-xterm}
use i_user_apps.Terminal.Path.{pts_prefix, build_pts_path, build_pts_path_lem}

abbrev blank : Cell
blank = record { ch = b' '; fg = color_default_fg; bg = color_background }

abbrev small : Terminal
small = record {
  grid = record { cell = λ i j. blank; faulted = false };
  rows = 3;
  cols = 8;
  cursor_row = 0;
  cursor_col = 0;
  cur_fg = color_default_fg;
  cur_bg = color_background;
  parser = record { state = ground_state; params = λ i. 0; param_count = 0; param_started = false };
  dirty_top = 0;
  dirty_bottom = 0;
}

small-IsValid : IsValid small
small-IsValid = ground arith

small-ParamsFit : ParamsFit small
small-ParamsFit i = omega arith

-- `ESC [ 2 ; 3 H h i`.
abbrev greeting : List ℕ
greeting = 0x1b ∷ b'[' ∷ b'2' ∷ b';' ∷ b'3' ∷ b'H' ∷ b'h' ∷ b'i' ∷ []

greeting_run : (feed_bytes small greeting).cursor_col ≡ 4
unfolding feed_bytes parser_feed feed_in feed_ground feed_escape feed_csi csi_digit csi_separator
    handle_csi cursor_position put_char put_cell wrap_line touch_rows write
greeting_run = refl

greeting-NoOverflows : NoOverflows small greeting
unfolding feed_bytes parser_feed feed_in feed_ground feed_escape feed_csi csi_digit csi_separator
    handle_csi cursor_position put_char put_cell wrap_line touch_rows write
greeting-NoOverflows = omega arith

feed_bytes-IsValid_example : IsValid (feed_bytes small greeting)
feed_bytes-IsValid_example =
    feed_bytes-IsValid small greeting greeting-NoOverflows small-ParamsFit small-IsValid

feed_bytes-Covers_example : Covers small (feed_bytes small greeting)
feed_bytes-Covers_example =
    feed_bytes-Covers small greeting greeting-NoOverflows small-ParamsFit small-IsValid

feed_bytes-text_example : Written small (b'h' ∷ b'i' ∷ []) (feed_bytes small (b'h' ∷ b'i' ∷ []))
feed_bytes-text_example =
    feed_bytes-text (b'h' ∷ b'i' ∷ []) small small-IsValid refl (omega arith) (omega arith)

feed-position_example :
    MovedTo 1 2 small (feed_bytes small (0x1b ∷ b'[' ∷ b'2' ∷ b';' ∷ b'3' ∷ b'H' ∷ []))
feed-position_example =
    feed-position small b'2' [] (b'3' ∷ []) small-IsValid refl (refl, tt) (refl, tt) (omega arith)
      (omega arith)

erase_cell_example :
    ((erase_display small 1).grid.cell 0 0 ≡ blank) × ((erase_line small 1).grid.cell 0 0 ≡ blank)
erase_cell_example = erase_cell small 1 0 0 small-IsValid

small-CanFit : CanFit small
small-CanFit = ground arith

-- A window of 104 by 56 pixels and cells of 8 by 16 have 2 rows of 10 columns.
fit_grid-Fits_example : (u : Terminal) × (fit_grid small 104 56 8 16 ≡ some u) × Fits small u 2 10
unfolding fit_count
fit_grid-Fits_example = fit_grid-Fits small 104 56 8 16 small-CanFit (omega arith) (omega arith)

-- `small` in a control sequence whose parameter is the pattern of -200.
abbrev overflowed : Terminal
overflowed = record small {
  parser = record { state = csi; params = λ i. 4294967096; param_count = 1; param_started = true };
}

overflowed-IsValid : IsValid overflowed
overflowed-IsValid = ground arith

handle_csi_up-faulted_example : (put_char (handle_csi overflowed b'A') b'x').grid.faulted ≡ true
handle_csi_up-faulted_example =
    handle_csi_up-faulted overflowed b'x' overflowed-IsValid (omega arith) (omega arith)
      (omega arith) (omega arith)

-- The same from the bytes: `ESC [ 4294967096 A x`.
overflow_run :
    (feed_bytes small (
      0x1b ∷ b'[' ∷ b'4' ∷ b'2' ∷ b'9' ∷ b'4' ∷ b'9' ∷ b'6' ∷ b'7' ∷ b'0' ∷ b'9' ∷ b'6' ∷ b'A'
      ∷ b'x' ∷ [])).grid.faulted
    ≡ true
unfolding feed_bytes parser_feed feed_in feed_ground feed_escape feed_csi csi_digit handle_csi
    cursor_up put_char put_cell wrap_line touch_rows write
overflow_run = refl

abbrev codes : KeyCodes
codes = record {
  up = 103;
  down = 108;
  right = 106;
  left = 105;
  home = 102;
  end = 107;
  insert = 110;
  delete = 111;
  page_up = 104;
  page_down = 109;
  f1 = 59;
  f2 = 60;
  f3 = 61;
  f4 = 62;
  f5 = 63;
  f6 = 64;
  f7 = 65;
  f8 = 66;
  f9 = 67;
  f10 = 68;
  f11 = 87;
  f12 = 88;
  enter = 28;
  keypad_enter = 96;
  backspace = 14;
  tab = 15;
  escape = 1;
  letter_a = 200;
  letter_z = 225;
  space = 57;
  digit_2 = 3;
  left_bracket = 26;
  backslash = 43;
  right_bracket = 27;
  digit_6 = 7;
  minus = 12;
  slash = 53;
}

abbrev ctrl_f5 : KeyEvent
ctrl_f5 = record { key = 63; text = 0; shift = false; ctrl = true; alt = false }

translate_key-xterm_example :
    translate_key codes ctrl_f5 ≡ 0x1b ∷ b'[' ∷ b'1' ∷ b'5' ∷ b';' ∷ b'5' ∷ b'~' ∷ []
unfolding key_sequence find_case key_table
translate_key-xterm_example =
    translate_key-xterm codes ctrl_f5 (0x1b ∷ b'[' ∷ b'1' ∷ b'5' ∷ b'~' ∷ []) refl

build_pts_path_lem_example :
    (ds : List ℕ) × (build_pts_path 42 ≡ pts_prefix ++ (ds ++ (0 ∷ [])))
    × AllDigits ds
    × (decimal_from 0 ds ≡ 42)
    × (length ds ≤ 10)
    × (length (build_pts_path 42) ≤ 20)
build_pts_path_lem_example = build_pts_path_lem 42 (omega arith)
