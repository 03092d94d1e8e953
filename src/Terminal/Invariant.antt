-- ===== src/Terminal/Invariant.antt =====
-- Predicates on the terminal of terminal/src/main.cpp that its operations are proved to keep.
use i_user_apps.Common.{ℕ, ◌≤◌, ◌<◌, ◌≡◌, false, int_max}
use i_user_apps.Terminal.State.{Terminal, max_rows, max_cols}

-- The screen fits the array, the cursor stands in it (or one past the last column, where the next
-- character wraps), the dirty rows are rows of the array, and no index has left an array.
pub record IsValid (t : Terminal) : Type 0 where
  pub rows_pos : 0 < t.rows
  pub rows_max : t.rows ≤ max_rows
  pub cols_pos : 0 < t.cols
  pub cols_max : t.cols ≤ max_cols
  pub row : t.cursor_row < t.rows
  pub col : t.cursor_col ≤ t.cols
  pub dirty : t.dirty_bottom ≤ max_rows
  pub count : t.parser.param_count ≤ 8
  pub safe : t.grid.faulted ≡ false

-- No parameter of a control sequence has overflowed its `int`.
abbrev pub ParamsFit : Terminal → Type 0
ParamsFit t = (i : ℕ) → t.parser.params i ≤ int_max

abbrev pub IsDirty : Terminal → ℕ → Type 0
IsDirty t r = (t.dirty_top ≤ r) × (r < t.dirty_bottom)

-- From `t` to `u` the size stayed, no dirty row was forgotten, and what is not dirty is as it was.
pub record Covers (t u : Terminal) : Type 0 where
  pub rows : u.rows ≡ t.rows
  pub cols : u.cols ≡ t.cols
  pub grows : (r : ℕ) → IsDirty t r → IsDirty u r
  pub kept : (r c : ℕ) → ¬ IsDirty u r → u.grid.cell r c ≡ t.grid.cell r c
