-- ===== src/Terminal/Fit.antt =====
-- `fit_grid` of terminal/src/main.cpp: the grid that fits a window. Sizes in pixels are not
-- negative. (Where the source would divide a negative number, its count is below 1, as here.)
pub mod Cursor
use i_user_apps.Common.{
  ℕ, zero, suc, ◌+◌, ◌-◌, ◌*◌, ◌/◌, Bool, ltb, leb, ◌==◌, ◌||◌, if◌then◌else◌, Option, none, some,
}
use i_user_apps.Terminal.State.{
  Cell, Grid, Terminal, max_rows, max_cols, padding_x, padding_y, color_background,
  color_default_fg,
}
use i_user_apps.Terminal.Grid.{fill_cells}
use i_user_apps.Terminal.Screen.{touch_all, scroll_up, space}

-- `n < 1 ? 1 : (n > most ? most : n)` for `n = (size - padding * 2) / cell`.
unfoldable pub fit_count : ℕ → ℕ → ℕ → ℕ → ℕ
fit_count size padding cell most =
    let n = (size - padding * 2) / cell in if ltb n 1 then 1 else if ltb most n then most else n

abbrev pub fresh_cell : Cell
fresh_cell = record { ch = space; fg = color_default_fg; bg = color_background }

-- The cells that come into view start blank: `n` rows to go from `r`.
unfoldable pub blank_new : ℕ → ℕ → ℕ → ℕ → ℕ → Grid → Grid
blank_new zero r old_rows old_cols new_cols g = g
blank_new (suc n) r old_rows old_cols new_cols g =
    let start : ℕ = if ltb r old_rows then old_cols else 0 in
    blank_new n (r + 1) old_rows old_cols new_cols
      (fill_cells (new_cols - start) r start fresh_cell g)

-- One round of `while (cursorRow >= newRows)`.
unfoldable pub scroll_to_cursor : Terminal → Terminal
scroll_to_cursor t =
    let u = scroll_up (record t { rows = t.cursor_row + 1 }) in
    record u { cursor_row = u.cursor_row - 1 }

-- The cursor row falls in each round, so as many rounds as its row are enough.
unfoldable pub shrink_loop : ℕ → ℕ → Terminal → Terminal
shrink_loop zero new_rows t = t
shrink_loop (suc fuel) new_rows t =
    let rest = shrink_loop fuel new_rows (scroll_to_cursor t) in
    if leb new_rows t.cursor_row then rest else t

unfoldable pub resize : Terminal → ℕ → ℕ → Terminal
resize t new_rows new_cols =
    let blanked = record t {
      grid = blank_new new_rows 0 t.rows t.cols new_cols t.grid;
      cols = new_cols;
    } in
    let shrunk = shrink_loop t.cursor_row new_rows blanked in
    touch_all (record shrunk {
      rows = new_rows;
      cursor_col = if ltb shrunk.cols shrunk.cursor_col then shrunk.cols else shrunk.cursor_col;
    })

-- `none` is the trap of a division by zero.
unfoldable pub fit_grid : Terminal → ℕ → ℕ → ℕ → ℕ → Option Terminal
fit_grid t width height cell_w line_h =
    if cell_w == 0 || line_h == 0
    then none
    else some (
        resize t (fit_count height padding_y line_h max_rows)
          (fit_count width padding_x cell_w max_cols))
