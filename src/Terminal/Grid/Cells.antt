-- ===== src/Terminal/Grid/Cells.antt =====
-- What the loops over the array of cells leave in each cell, and that they stay inside the array.
use i_user_apps.Common.{
  ℕ, zero, suc, ◌+◌, ◌-◌, ◌≤◌, ◌<◌, ◌≡◌, refl, true, ◌∙◌, ◌&&◌, ltb, leb, ◌==◌, if◌then◌else◌,
  arith,
}
use i_user_apps.Terminal.State.{Cell, Grid, max_rows, max_cols}
use i_user_apps.Terminal.Grid.{write, check_read, fill_cells, copy_row, copy_rows, blank_cells}

pub fill_cells_cell :
    (n r c : ℕ) (v : Cell) (g : Grid) (i j : ℕ)
    → (fill_cells n r c v g).cell i j
      ≡ (if i == r && leb c j && ltb j (c + n) then v else g.cell i j)
unfolding fill_cells write
fill_cells_cell zero r c v g i j = ground arith
fill_cells_cell (suc n) r c v g i j =
    ground (arith, fill_cells_cell n r (c + 1) v (write g r c v) i j)

pub fill_cells_safe :
    (n r c : ℕ) (v : Cell) (g : Grid)
    → r < max_rows
    → c + n ≤ max_cols
    → (fill_cells n r c v g).faulted ≡ g.faulted
unfolding fill_cells write
fill_cells_safe zero r c v g hr hc = refl
fill_cells_safe (suc n) r c v g hr hc =
    ground (arith, fill_cells_safe n r (c + 1) v (write g r c v))

pub copy_row_cell :
    (n r c : ℕ) (g : Grid) (i j : ℕ)
    → 0 < r
    → (copy_row n r c g).cell i j
      ≡ (if i + 1 == r && leb c j && ltb j (c + n) then g.cell r j else g.cell i j)
unfolding copy_row write check_read
copy_row_cell zero r c g i j h = ground arith
copy_row_cell (suc n) r c g i j h =
    ground
      (arith, copy_row_cell n r (c + 1) (write (check_read g r c) (r - 1) c (g.cell r c)) i j h)

pub copy_row_safe :
    (n r c : ℕ) (g : Grid)
    → r < max_rows
    → c + n ≤ max_cols
    → (copy_row n r c g).faulted ≡ g.faulted
unfolding copy_row write check_read
copy_row_safe zero r c g hr hc = refl
copy_row_safe (suc n) r c g hr hc =
    ground (arith, copy_row_safe n r (c + 1) (write (check_read g r c) (r - 1) c (g.cell r c)))

-- Row `r - 1 + k` becomes what row `r + k` was, for each `k` below `n`.
pub copy_rows_cell :
    (n cols r : ℕ) (g : Grid) (i j : ℕ)
    → 0 < r
    → (copy_rows n cols r g).cell i j ≡ (
        if leb r (i + 1) && ltb (i + 1) (r + n) && ltb j cols then g.cell (i + 1) j else g.cell i j)
unfolding copy_rows
copy_rows_cell zero cols r g i j h = ground arith
copy_rows_cell (suc n) cols r g i j h = ground (
  arith,
  copy_rows_cell n cols (r + 1) (copy_row cols r 0 g) i j,
  copy_row_cell cols r 0 g i j h,
  copy_row_cell cols r 0 g (i + 1) j h,
)

pub copy_rows_safe :
    (n cols r : ℕ) (g : Grid)
    → r + n ≤ max_rows
    → cols ≤ max_cols
    → (copy_rows n cols r g).faulted ≡ g.faulted
unfolding copy_rows
copy_rows_safe zero cols r g hr hc = refl
copy_rows_safe (suc n) cols r g hr hc =
    copy_rows_safe n cols (r + 1) (copy_row cols r 0 g) (omega arith) hc
    ∙ copy_row_safe cols r 0 g (omega arith) (omega arith)

pub blank_cells_cell :
    (n r c ch : ℕ) (g : Grid) (i j : ℕ)
    → (blank_cells n r c ch g).cell i j
      ≡ (if i == r && leb c j && ltb j (c + n) then record (g.cell i j) { ch = ch } else g.cell i j)
unfolding blank_cells write check_read
blank_cells_cell zero r c ch g i j = ground arith
blank_cells_cell (suc n) r c ch g i j = ground (
  arith,
  blank_cells_cell n r (c + 1) ch (write (check_read g r c) r c (record (g.cell r c) { ch = ch })) i
      j,
)

pub blank_cells_safe :
    (n r c ch : ℕ) (g : Grid)
    → r < max_rows
    → c + n ≤ max_cols
    → (blank_cells n r c ch g).faulted ≡ g.faulted
unfolding blank_cells write check_read
blank_cells_safe zero r c ch g hr hc = refl
blank_cells_safe (suc n) r c ch g hr hc = ground (
  arith,
  blank_cells_safe n r (c + 1) ch (write (check_read g r c) r c (record (g.cell r c) { ch = ch })),
)

pub write_safe :
    (g : Grid) (r c : ℕ) (v : Cell)
    → r < max_rows
    → c < max_cols
    → (write g r c v).faulted ≡ g.faulted
unfolding write
write_safe g r c v hr hc = ground arith

pub write_cell :
    (g : Grid) (r c : ℕ) (v : Cell) (i j : ℕ)
    → (write g r c v).cell i j ≡ (if i == r && j == c then v else g.cell i j)
unfolding write
write_cell g r c v i j = refl

pub write-faulted : (g : Grid) (r c : ℕ) (v : Cell) → max_rows ≤ r → (write g r c v).faulted ≡ true
unfolding write
write-faulted g r c v h = ground arith
