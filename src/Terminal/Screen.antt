-- ===== src/Terminal/Screen.antt =====
-- The editing operations of terminal/src/main.cpp: dirty rows, erasing, scrolling, writing.
pub mod Valid
pub mod Covers
pub mod Text
use i_user_apps.Common.{ℕ, zero, suc, ◌+◌, ◌-◌, Bool, ltb, leb, if◌then◌else◌, add32, sub32}
use i_user_apps.Terminal.State.{Cell, Terminal}
use i_user_apps.Terminal.Grid.{write, fill_cells, copy_rows}

unfoldable pub touch_rows : Terminal → ℕ → ℕ → Terminal
touch_rows t top bottom =
    if leb bottom top
    then t
    else if leb t.dirty_bottom t.dirty_top
    then record t { dirty_top = top; dirty_bottom = bottom }
    else record t {
      dirty_top = if ltb top t.dirty_top then top else t.dirty_top;
      dirty_bottom = if ltb t.dirty_bottom bottom then bottom else t.dirty_bottom;
    }

unfoldable pub touch_all : Terminal → Terminal
touch_all t = touch_rows t 0 t.rows

abbrev pub space : ℕ
space = b' '

-- `{ ch, curFg, curBg }`.
abbrev pub pen : Terminal → ℕ → Cell
pen t ch = record { ch = ch; fg = t.cur_fg; bg = t.cur_bg }

unfoldable pub clear_row : Terminal → ℕ → ℕ → Terminal
clear_row t row from_col =
    touch_rows
      (record t { grid = fill_cells (t.cols - from_col) row from_col (pen t space) t.grid }) row
      (add32 row 1)

-- `for (r = row; r < row + n; ++r) clear_row(t, r, 0)`.
unfoldable pub clear_rows : ℕ → ℕ → Terminal → Terminal
clear_rows zero row t = t
clear_rows (suc n) row t = clear_rows n (row + 1) (clear_row t row 0)

unfoldable pub clear_all : Terminal → Terminal
clear_all t = record (clear_rows t.rows 0 t) { cursor_row = 0; cursor_col = 0 }

unfoldable pub scroll_up : Terminal → Terminal
scroll_up t =
    touch_all
      (clear_row (record t { grid = copy_rows (t.rows - 1) t.cols 1 t.grid }) (sub32 t.rows 1) 0)

unfoldable pub newline : Terminal → Terminal
newline t =
    if leb t.rows (add32 t.cursor_row 1)
    then scroll_up t
    else record t { cursor_row = add32 t.cursor_row 1 }

-- `put_char` once the cursor is on a column.
unfoldable pub put_cell : Terminal → ℕ → Terminal
put_cell t ch =
    let touched =
      touch_rows (record t { grid = write t.grid t.cursor_row t.cursor_col (pen t ch) })
        t.cursor_row (add32 t.cursor_row 1) in
    record touched { cursor_col = add32 t.cursor_col 1 }

unfoldable pub wrap_line : Terminal → Terminal
wrap_line t = if leb t.cols t.cursor_col then newline (record t { cursor_col = 0 }) else t

unfoldable pub put_char : Terminal → ℕ → Terminal
put_char t ch = put_cell (wrap_line t) ch
