-- ===== src/Terminal/Fit/Cursor.antt =====
-- Resizing the terminal of terminal/src/main.cpp: bounds, the cursor's line, the loop's end.
use i_user_apps.Common.{
  ℕ, zero, suc, ◌+◌, ◌-◌, ◌≤◌, ◌<◌, ◌≡◌, refl, ◌∙◌, ap, inl, inr, arith, ltb, leb, ◌&&◌,
  if◌then◌else◌, Bool-cases, some, false,
}
use Prim.Native.Nat.{min}
use i_user_apps.Terminal.State.{Grid, Terminal, max_rows, max_cols, padding_x, padding_y}
use i_user_apps.Terminal.Grid.{fill_cells}
use i_user_apps.Terminal.Grid.Cells.{fill_cells_cell, fill_cells_safe}
use i_user_apps.Terminal.Invariant.{IsValid, IsDirty}
use i_user_apps.Terminal.Screen.Valid.{
  scroll_up_safe, scroll_up-SameFrame, scroll_up-bottom, touch_all_lem, touch_rows-bottom,
  touch_rows-SameFrame, touch_rows-grid,
}
use i_user_apps.Terminal.Screen.Covers.{scroll_up_cell, touch_rows-IsDirty}
use i_user_apps.Terminal.Fit.{
  fit_count, fresh_cell, blank_new, scroll_to_cursor, shrink_loop, resize, fit_grid,
}

pub fit_count_bounds :
    (size padding cell most : ℕ)
    → 0 < most
    → (0 < fit_count size padding cell most) × (fit_count size padding cell most ≤ most)
unfolding fit_count
fit_count_bounds size padding cell most h = ground arith

blank_new_cell :
    (n r old_rows old_cols new_cols : ℕ) (g : Grid) (i j : ℕ)
    → (blank_new n r old_rows old_cols new_cols g).cell i j ≡ (
        if leb r i
          && ltb i (r + n)
          && leb (if ltb i old_rows then old_cols else 0) j
          && ltb j new_cols
        then fresh_cell
        else g.cell i j)
unfolding blank_new
blank_new_cell zero r old_rows old_cols new_cols g i j = ground arith
blank_new_cell (suc n) r old_rows old_cols new_cols g i j =
    let start : ℕ = if ltb r old_rows then old_cols else 0 in
    let g' = fill_cells (new_cols - start) r start fresh_cell g in
    ground (
      arith,
      blank_new_cell n (r + 1) old_rows old_cols new_cols g' i j,
      fill_cells_cell (new_cols - start) r start fresh_cell g i j,
    )

blank_new_safe :
    (n r old_rows old_cols new_cols : ℕ) (g : Grid)
    → r + n ≤ max_rows
    → old_cols ≤ max_cols
    → new_cols ≤ max_cols
    → (blank_new n r old_rows old_cols new_cols g).faulted ≡ g.faulted
unfolding blank_new
blank_new_safe zero r old_rows old_cols new_cols g hr ho hn = refl
blank_new_safe (suc n) r old_rows old_cols new_cols g hr ho hn =
    let start : ℕ = if ltb r old_rows then old_cols else 0 in
    let g' = fill_cells (new_cols - start) r start fresh_cell g in
    blank_new_safe n (r + 1) old_rows old_cols new_cols g' (omega arith) ho hn
    ∙ fill_cells_safe (new_cols - start) r start fresh_cell g (omega arith) (ground arith)

-- From `t` to `u` inside the loop: the cursor's line came along.
pub record Follows (t u : Terminal) : Type 0 where
  pub cols : u.cols ≡ t.cols
  pub cursor_col : u.cursor_col ≡ t.cursor_col
  pub parser : u.parser ≡ t.parser
  pub safe : u.grid.faulted ≡ t.grid.faulted
  pub bottom : t.dirty_bottom ≤ max_rows → u.dirty_bottom ≤ max_rows
  pub line : (j : ℕ) → j < t.cols → u.grid.cell u.cursor_row j ≡ t.grid.cell t.cursor_row j

Follows-refl : (t : Terminal) → Follows t t
Follows-refl t = record {
  cols = refl;
  cursor_col = refl;
  parser = refl;
  safe = refl;
  bottom = λ h. h;
  line = λ j h. refl;
}

Follows-trans : {t u w : Terminal} → Follows t u → Follows u w → Follows t w
Follows-trans f g = record {
  cols = g.cols ∙ f.cols;
  cursor_col = g.cursor_col ∙ f.cursor_col;
  parser = g.parser ∙ f.parser;
  safe = g.safe ∙ f.safe;
  bottom = λ h. g.bottom (f.bottom h);
  line = λ j h. g.line j (omega (arith, f.cols)) ∙ f.line j h;
}

scroll_to_cursor-Follows :
    (t : Terminal)
    → 0 < t.cursor_row
    → t.cursor_row < max_rows
    → t.cols ≤ max_cols
    → Follows t (scroll_to_cursor t) × ((scroll_to_cursor t).cursor_row ≡ t.cursor_row - 1)
unfolding scroll_to_cursor
scroll_to_cursor-Follows t lo hi wide =
    let tall = record t { rows = t.cursor_row + 1 } in
    let same = scroll_up-SameFrame tall in
    (
      record {
        cols = same.cols;
        cursor_col = same.cursor_col;
        parser = same.parser;
        safe = scroll_up_safe tall (omega arith) (omega arith) wide;
        bottom = scroll_up-bottom tall (omega arith) (omega arith);
        line = λ j h. ground (
          arith,
          same.cursor_row,
          scroll_up_cell tall (t.cursor_row - 1) j (omega arith) (omega arith),
        );
      },
      omega (arith, same.cursor_row),
    )

-- The loop ends by its test, with the cursor on the last row of the new screen or above it.
shrink_loop-Follows :
    (fuel new_rows : ℕ) (t : Terminal)
    → t.cursor_row ≤ fuel
    → 0 < new_rows
    → t.cursor_row < max_rows
    → t.cols ≤ max_cols
    → Follows t (shrink_loop fuel new_rows t)
      × ((shrink_loop fuel new_rows t).cursor_row ≡ min t.cursor_row (new_rows - 1))
unfolding shrink_loop
shrink_loop-Follows zero new_rows t h pos hi wide = (Follows-refl t, omega arith)
shrink_loop-Follows (suc fuel) new_rows t h pos hi wide =
    elim (Bool-cases (leb new_rows t.cursor_row)) [
      | inl low ↦
          let step = scroll_to_cursor-Follows t (ground arith) hi wide in
          let rest =
            shrink_loop-Follows fuel new_rows (scroll_to_cursor t) (omega (arith, step.1)) pos
              (omega (arith, step.1)) (omega (arith, step.0.cols)) in
          rw low (Follows-trans step.0 rest.0, ground (arith, rest.1, step.1))
      | inr fine ↦ rw fine (Follows-refl t, ground arith)
    ]

-- What resizing needs of the terminal before it: a valid one has it, and so has the new one, of no
-- rows and no columns.
pub record CanFit (t : Terminal) : Type 0 where
  pub cols_max : t.cols ≤ max_cols
  pub row : t.cursor_row < max_rows
  pub dirty : t.dirty_bottom ≤ max_rows
  pub count : t.parser.param_count ≤ 8
  pub safe : t.grid.faulted ≡ false

-- The terminal `u` is `t` on a screen of `new_rows` and `new_cols`.
pub record Fits (t u : Terminal) (new_rows new_cols : ℕ) : Type 0 where
  pub valid : IsValid u
  pub rows : u.rows ≡ new_rows
  pub cols : u.cols ≡ new_cols
  pub cursor_row : u.cursor_row ≡ min t.cursor_row (new_rows - 1)
  pub cursor_col : u.cursor_col ≡ min t.cursor_col new_cols
  pub line :
      (j : ℕ)
      → j < new_cols
      → j < t.cols
      → t.cursor_row < t.rows
      → u.grid.cell u.cursor_row j ≡ t.grid.cell t.cursor_row j
  pub unscrolled :
      (i j : ℕ)
      → t.cursor_row < new_rows
      → i < new_rows
      → j < new_cols
      → u.grid.cell i j ≡ (if ltb i t.rows && ltb j t.cols then t.grid.cell i j else fresh_cell)
  pub all_dirty : (r : ℕ) → r < new_rows → IsDirty u r

shrink_loop-eq :
    (fuel new_rows : ℕ) (t : Terminal) → t.cursor_row < new_rows → shrink_loop fuel new_rows t ≡ t
unfolding shrink_loop
shrink_loop-eq zero new_rows t h = refl
shrink_loop-eq (suc fuel) new_rows t h = ground arith

pub resize-Fits :
    (t : Terminal) (new_rows new_cols : ℕ)
    → CanFit t
    → 0 < new_rows
    → new_rows ≤ max_rows
    → 0 < new_cols
    → new_cols ≤ max_cols
    → Fits t (resize t new_rows new_cols) new_rows new_cols
unfolding resize
resize-Fits t new_rows new_cols can rp rm cp cm =
    let blanked = record t {
      grid = blank_new new_rows 0 t.rows t.cols new_cols t.grid;
      cols = new_cols;
    } in
    let shrunk = shrink_loop t.cursor_row new_rows blanked in
    let loop = shrink_loop-Follows t.cursor_row new_rows blanked (omega arith) rp can.row cm in
    let last = record shrunk {
      rows = new_rows;
      cursor_col = if ltb shrunk.cols shrunk.cursor_col then shrunk.cols else shrunk.cursor_col;
    } in
    let same = touch_rows-SameFrame last 0 new_rows in
    let kept = touch_rows-grid last 0 new_rows in
    let blank_safe =
      blank_new_safe new_rows 0 t.rows t.cols new_cols t.grid (omega arith) can.cols_max cm in
    let bottom = touch_rows-bottom last 0 new_rows rm (loop.0.bottom can.dirty) in
    rw (touch_all_lem last) (record {
      valid = record {
        rows_pos = omega (arith, same.rows);
        rows_max = omega (arith, same.rows);
        cols_pos = omega (arith, same.cols, loop.0.cols);
        cols_max = omega (arith, same.cols, loop.0.cols);
        row = omega (arith, same.rows, same.cursor_row, loop.1);
        col = ground (arith, same.cols, same.cursor_col, loop.0.cols);
        dirty = bottom;
        count = ground (arith, same.parser, loop.0.parser);
        safe = ap (λ g. g.faulted) kept ∙ loop.0.safe ∙ blank_safe ∙ can.safe;
      };
      rows = same.rows;
      cols = same.cols ∙ loop.0.cols;
      cursor_row = same.cursor_row ∙ loop.1;
      cursor_col = ground (arith, same.cursor_col, loop.0.cols, loop.0.cursor_col);
      line = λ j hn ho hr. ground (
        arith,
        kept,
        same.cursor_row,
        loop.0.line j hn,
        blank_new_cell new_rows 0 t.rows t.cols new_cols t.grid t.cursor_row j,
      );
      unscrolled = λ i j fits hi hj. ground (
        arith,
        kept,
        shrink_loop-eq t.cursor_row new_rows blanked fits,
        blank_new_cell new_rows 0 t.rows t.cols new_cols t.grid i j,
      );
      all_dirty = λ r h. touch_rows-IsDirty last 0 new_rows r (omega arith) h;
    })

-- The grid of any window with cells of a positive size, on a terminal that can be resized: it has
-- between 1 and 120 rows and 1 and 300 columns, it is valid, the cursor stays on its line and that
-- line keeps its text, without scrolling every cell keeps its place and new ones are blank, and
-- every row is repainted.
pub fit_grid-Fits :
    (t : Terminal) (width height cell_w line_h : ℕ)
    → CanFit t
    → 0 < cell_w
    → 0 < line_h
    → (u : Terminal) × (fit_grid t width height cell_w line_h ≡ some u)
      × Fits t u
          (fit_count height padding_y line_h max_rows)
          (fit_count width padding_x cell_w max_cols)
unfolding fit_grid
fit_grid-Fits t width height cell_w line_h can hw hl =
    let new_rows = fit_count height padding_y line_h max_rows in
    let new_cols = fit_count width padding_x cell_w max_cols in
    let rb = fit_count_bounds height padding_y line_h max_rows (omega arith) in
    let cb = fit_count_bounds width padding_x cell_w max_cols (omega arith) in
    (
      resize t new_rows new_cols,
      ground arith,
      resize-Fits t new_rows new_cols can rb.0 rb.1 cb.0 cb.1,
    )
