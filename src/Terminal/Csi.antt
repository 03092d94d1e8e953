-- ===== src/Terminal/Csi.antt =====
-- `apply_sgr` and `handle_csi` of terminal/src/main.cpp: what a complete control sequence does.
pub mod Valid
pub mod Position
pub mod Erase
pub mod Overflow
use i_user_apps.Common.{
  ℕ, zero, suc, ◌+◌, ◌-◌, Bool, ◌&&◌, ◌||◌, ltb, leb, ◌==◌, if◌then◌else◌, get_or, add32, sub32,
  sle32, is_positive32,
}
use i_user_apps.Terminal.State.{Terminal, VtParser, ansi_colors, color_background, color_default_fg}
use i_user_apps.Terminal.Grid.{blank_cells}
use i_user_apps.Terminal.Screen.{touch_rows, clear_row, clear_rows, clear_all, space}

unfoldable pub reset_colors : Terminal → Terminal
reset_colors t = record t { cur_fg = color_default_fg; cur_bg = color_background }

-- One turn of the loop. A negative `code` has a pattern above all the tests, and changes nothing.
unfoldable pub sgr_code : Terminal → ℕ → Terminal
sgr_code t code =
    if code == 0
    then reset_colors t
    else if leb 30 code && leb code 37
    then record t { cur_fg = get_or ansi_colors (code - 30) 0 }
    else if leb 90 code && leb code 97
    then record t { cur_fg = get_or ansi_colors (code - 90 + 8) 0 }
    else if leb 40 code && leb code 47
    then record t { cur_bg = get_or ansi_colors (code - 40) 0 }
    else if leb 100 code && leb code 107
    then record t { cur_bg = get_or ansi_colors (code - 100 + 8) 0 }
    else if code == 39
    then record t { cur_fg = color_default_fg }
    else if code == 49
    then record t { cur_bg = color_background }
    else t

unfoldable pub sgr_codes : ℕ → ℕ → VtParser → Terminal → Terminal
sgr_codes zero i p t = t
sgr_codes (suc n) i p t = sgr_codes n (i + 1) p (sgr_code t (p.params i))

unfoldable pub apply_sgr : Terminal → VtParser → Terminal
apply_sgr t p = if p.param_count == 0 then reset_colors t else sgr_codes p.param_count 0 p t

-- `a ? a : 1`.
abbrev pub or_one : ℕ → ℕ
or_one a = if a == 0 then 1 else a

unfoldable pub cursor_up : Terminal → ℕ → Terminal
cursor_up t a =
    let n = or_one a in
    record t { cursor_row = sub32 t.cursor_row (if sle32 n t.cursor_row then n else t.cursor_row) }

unfoldable pub cursor_down : Terminal → ℕ → Terminal
cursor_down t a =
    let row = add32 t.cursor_row (or_one a) in
    record t { cursor_row = if leb t.rows row then sub32 t.rows 1 else row }

unfoldable pub cursor_forward : Terminal → ℕ → Terminal
cursor_forward t a =
    let col = add32 t.cursor_col (or_one a) in
    record t { cursor_col = if leb t.cols col then sub32 t.cols 1 else col }

unfoldable pub cursor_back : Terminal → ℕ → Terminal
cursor_back t a =
    let n = or_one a in
    record t { cursor_col = sub32 t.cursor_col (if sle32 n t.cursor_col then n else t.cursor_col) }

unfoldable pub cursor_position : Terminal → ℕ → ℕ → Terminal
cursor_position t a b =
    let row = if is_positive32 a then a - 1 else 0 in
    let col = if is_positive32 b then b - 1 else 0 in
    record t {
      cursor_row = if ltb row t.rows then row else sub32 t.rows 1;
      cursor_col = if ltb col t.cols then col else sub32 t.cols 1;
    }

unfoldable pub erase_display : Terminal → ℕ → Terminal
erase_display t a =
    if a == 2 || a == 3
    then clear_all t
    else if a == 0
    then clear_rows (t.rows - (t.cursor_row + 1)) (t.cursor_row + 1)
        (clear_row t t.cursor_row t.cursor_col)
    else if a == 1
    then clear_row (clear_rows t.cursor_row 0 t) t.cursor_row 0
    else t

-- The columns of `for (c = 0; c <= cursorCol && c < cols; ++c)`.
abbrev pub columns_through_cursor : Terminal → ℕ
columns_through_cursor t = if ltb t.cursor_col t.cols then t.cursor_col + 1 else t.cols

unfoldable pub erase_line : Terminal → ℕ → Terminal
erase_line t a =
    if a == 0
    then clear_row t t.cursor_row t.cursor_col
    else if a == 1
    then touch_rows
        (record t { grid = blank_cells (columns_through_cursor t) t.cursor_row 0 space t.grid })
        t.cursor_row (add32 t.cursor_row 1)
    else if a == 2
    then clear_row t t.cursor_row 0
    else t

unfoldable pub handle_csi : Terminal → ℕ → Terminal
handle_csi t final =
    let p = t.parser in
    let a : ℕ = if ltb 0 p.param_count then p.params 0 else 0 in
    let b : ℕ = if ltb 1 p.param_count then p.params 1 else 0 in
    if final == b'A'
    then cursor_up t a
    else if final == b'B'
    then cursor_down t a
    else if final == b'C'
    then cursor_forward t a
    else if final == b'D'
    then cursor_back t a
    else if final == b'H' || final == b'f'
    then cursor_position t a b
    else if final == b'J'
    then erase_display t a
    else if final == b'K'
    then erase_line t a
    else if final == b'm'
    then apply_sgr t p
    else t
