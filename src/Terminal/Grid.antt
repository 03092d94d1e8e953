-- ===== src/Terminal/Grid.antt =====
-- The array of cells of terminal/src/main.cpp, and the loops that run over it.
pub mod Cells
use i_user_apps.Common.{ℕ, zero, suc, ◌+◌, ◌-◌, Bool, not, ◌&&◌, ◌||◌, ltb, ◌==◌, if◌then◌else◌}
use i_user_apps.Terminal.State.{Cell, Grid, max_rows, max_cols}

abbrev pub in_array : ℕ → ℕ → Bool
in_array r c = ltb r max_rows && ltb c max_cols

-- `grid[r][c] = v`.
unfoldable pub write : Grid → ℕ → ℕ → Cell → Grid
write g r c v = record {
  cell = λ i j. if i == r && j == c then v else g.cell i j;
  faulted = g.faulted || not (in_array r c);
}

-- The effect of the read `grid[r][c]` on the fault.
unfoldable pub check_read : Grid → ℕ → ℕ → Grid
check_read g r c = record g { faulted = g.faulted || not (in_array r c) }

-- The loop of `clear_row`, with `n` columns to go from `c`.
unfoldable pub fill_cells : ℕ → ℕ → ℕ → Cell → Grid → Grid
fill_cells zero r c v g = g
fill_cells (suc n) r c v g = fill_cells n r (c + 1) v (write g r c v)

-- The inner loop of `scroll_up`: `grid[r - 1][c] = grid[r][c]`.
unfoldable pub copy_row : ℕ → ℕ → ℕ → Grid → Grid
copy_row zero r c g = g
copy_row (suc n) r c g = copy_row n r (c + 1) (write (check_read g r c) (r - 1) c (g.cell r c))

-- The outer loop of `scroll_up`, with `n` rows to go from `r`.
unfoldable pub copy_rows : ℕ → ℕ → ℕ → Grid → Grid
copy_rows zero cols r g = g
copy_rows (suc n) cols r g = copy_rows n cols (r + 1) (copy_row cols r 0 g)

-- `grid[r][c].ch = ch` for `n` columns from `c` (the loop of `ESC [ 1 K`).
unfoldable pub blank_cells : ℕ → ℕ → ℕ → ℕ → Grid → Grid
blank_cells zero r c ch g = g
blank_cells (suc n) r c ch g =
    blank_cells n r (c + 1) ch (write (check_read g r c) r c (record (g.cell r c) { ch = ch }))
