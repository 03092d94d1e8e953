-- ===== src/Terminal/Csi/Erase.antt =====
-- Which cells the erasing sequences of terminal/src/main.cpp blank.
use i_user_apps.Common.{
  ℕ, ◌+◌, ◌-◌, ◌≡◌, arith, add32, Bool, ltb, leb, ◌==◌, ◌&&◌, ◌||◌, if◌then◌else◌,
}
use i_user_apps.Terminal.State.{Terminal}
use i_user_apps.Terminal.Grid.{blank_cells}
use i_user_apps.Terminal.Grid.Cells.{blank_cells_cell}
use i_user_apps.Terminal.Invariant.{IsValid}
use i_user_apps.Terminal.Screen.{clear_row, clear_rows, pen, space}
use i_user_apps.Terminal.Screen.Valid.{touch_rows-grid, clear_row-SameFrame, clear_rows-SameFrame}
use i_user_apps.Terminal.Screen.Covers.{clear_row_cell, clear_rows_cell, clear_all_cell}
use i_user_apps.Terminal.Csi.{erase_display, erase_line, columns_through_cursor}

-- The places that `ESC [ a J` blanks: all for 2 and 3; from the cursor on for 0; for 1, the rows
-- up to the cursor's, that row whole.
abbrev pub display_region : Terminal → ℕ → ℕ → ℕ → Bool
display_region t a i j =
    ltb i t.rows
    && ltb j t.cols
    && (a == 2
        || a == 3
        || (a == 0 && (ltb t.cursor_row i || (i == t.cursor_row && leb t.cursor_col j)))
        || (a == 1 && leb i t.cursor_row))

-- On a valid terminal, `ESC [ a J` blanks the places of its region in the current colours, and
-- leaves all other cells.
pub erase_display_cell :
    (t : Terminal) (a i j : ℕ)
    → IsValid t
    → (erase_display t a).grid.cell i j
      ≡ (if display_region t a i j then pen t space else t.grid.cell i j)
unfolding erase_display
erase_display_cell t a i j v =
    let below = clear_row t t.cursor_row t.cursor_col in
    let above = clear_rows t.cursor_row 0 t in
    ground (
      arith,
      clear_all_cell t i j,
      clear_row-SameFrame t t.cursor_row t.cursor_col,
      clear_row_cell t t.cursor_row t.cursor_col i j,
      clear_rows_cell (t.rows - (t.cursor_row + 1)) (t.cursor_row + 1) below i j,
      clear_rows-SameFrame t.cursor_row 0 t,
      clear_rows_cell t.cursor_row 0 t i j,
      clear_row_cell above t.cursor_row 0 i j,
    )

abbrev pub line_region : Terminal → ℕ → ℕ → ℕ → Bool
line_region t a i j =
    i == t.cursor_row
    && ltb j t.cols
    && ((a == 0 && leb t.cursor_col j) || (a == 1 && leb j t.cursor_col) || a == 2)

-- On a valid terminal, `ESC [ a K` blanks its part of the cursor's row, for 1 in the colours that
-- each cell had and otherwise in the current ones, and leaves all other cells.
pub erase_line_cell :
    (t : Terminal) (a i j : ℕ)
    → IsValid t
    → (erase_line t a).grid.cell i j ≡ (
        if line_region t a i j
        then (if a == 1 then record (t.grid.cell i j) { ch = space } else pen t space)
        else t.grid.cell i j)
unfolding erase_line
erase_line_cell t a i j v =
    let n = columns_through_cursor t in
    let blanked = record t { grid = blank_cells n t.cursor_row 0 space t.grid } in
    ground (
      arith,
      clear_row_cell t t.cursor_row t.cursor_col i j,
      touch_rows-grid blanked t.cursor_row (add32 t.cursor_row 1),
      blank_cells_cell n t.cursor_row 0 space t.grid i j,
      clear_row_cell t t.cursor_row 0 i j,
    )

-- On a valid terminal, `ESC [ a J` blanks the places of its region in the current colours and leaves
-- all other cells, and `ESC [ a K` does so with its part of the cursor's row, for 1 in the colours that
-- each cell had.
pub erase_cell :
    (t : Terminal) (a i j : ℕ)
    → IsValid t
    → ((erase_display t a).grid.cell i j
        ≡ (if display_region t a i j then pen t space else t.grid.cell i j))
      × ((erase_line t a).grid.cell i j ≡ (
          if line_region t a i j
          then (if a == 1 then record (t.grid.cell i j) { ch = space } else pen t space)
          else t.grid.cell i j))
erase_cell t a i j v = (erase_display_cell t a i j v, erase_line_cell t a i j v)
