-- ===== src/Terminal/Screen/Covers.antt =====
-- The editing operations of terminal/src/main.cpp mark every row that they change.
use i_user_apps.Common.{
  ℕ, zero, suc, ◌+◌, ◌-◌, ◌≤◌, ◌<◌, ◌≡◌, refl, ◌∙◌, inl, inr, arith, sub32, leb, ltb, ◌==◌, ◌&&◌,
  if◌then◌else◌, Bool-cases, ap, add32, ◌≢◌,
}
use i_user_apps.Terminal.State.{Terminal, max_rows}
use i_user_apps.Terminal.Grid.{write, fill_cells}
use i_user_apps.Terminal.Grid.Cells.{write_cell, fill_cells_cell, copy_rows_cell}
use i_user_apps.Terminal.Invariant.{IsValid, IsDirty, Covers}
use i_user_apps.Terminal.Screen.{
  touch_rows, touch_all, clear_row, clear_rows, clear_all, scroll_up, newline, put_cell, wrap_line,
  put_char, pen, space,
}
use i_user_apps.Terminal.Screen.Valid.{
  copied, touch_rows-SameFrame, touch_rows-grid, clear_row-SameFrame, wrap_line-IsValid,
}

pub Covers-refl : (t : Terminal) → Covers t t
Covers-refl t = record { rows = refl; cols = refl; grows = λ r d. d; kept = λ r c h. refl }

pub Covers-trans : {t u w : Terminal} → Covers t u → Covers u w → Covers t w
Covers-trans h k = record {
  rows = k.rows ∙ h.rows;
  cols = k.cols ∙ h.cols;
  grows = λ r d. k.grows r (h.grows r d);
  kept = λ r c n. k.kept r c n ∙ h.kept r c (λ d. n (k.grows r d));
}

-- A change of the cursor, the colours or the parser alone.
pub Covers-of_eq :
    {t u : Terminal}
    → u.rows ≡ t.rows
    → u.cols ≡ t.cols
    → u.grid ≡ t.grid
    → u.dirty_top ≡ t.dirty_top
    → u.dirty_bottom ≡ t.dirty_bottom
    → Covers t u
Covers-of_eq {t} {u} hr hc hg ht hb = record {
  rows = hr;
  cols = hc;
  grows = λ r d. omega arith;
  kept = λ r c n. ap (λ g. g.cell r c) hg;
}

pub touch_rows-grows : (t : Terminal) (a b i : ℕ) → IsDirty t i → IsDirty (touch_rows t a b) i
unfolding touch_rows
touch_rows-grows t a b i d = ground arith

pub touch_rows-IsDirty : (t : Terminal) (a b i : ℕ) → a ≤ i → i < b → IsDirty (touch_rows t a b) i
unfolding touch_rows
touch_rows-IsDirty t a b i ha hb = ground arith

-- A row edit: cells change in row `r` only, and the row is marked.
pub edit_row-Covers :
    (t u : Terminal) (r : ℕ)
    → r < max_rows
    → u.rows ≡ t.rows
    → u.cols ≡ t.cols
    → u.dirty_top ≡ t.dirty_top
    → u.dirty_bottom ≡ t.dirty_bottom
    → ((i j : ℕ) → i ≢ r → u.grid.cell i j ≡ t.grid.cell i j)
    → Covers t (touch_rows u r (add32 r 1))
edit_row-Covers t u r hr er ec et eb other =
    let same = touch_rows-SameFrame u r (add32 r 1) in
    record {
      rows = same.rows ∙ er;
      cols = same.cols ∙ ec;
      grows = λ i d. touch_rows-grows u r (add32 r 1) i (omega arith);
      kept = λ i j clean.
          ap (λ g. g.cell i j) (touch_rows-grid u r (add32 r 1))
          ∙ other i j
              (λ e. clean (touch_rows-IsDirty u r (add32 r 1) i (omega arith) (omega arith)));
    }

pub clear_row-Covers : (t : Terminal) (r c : ℕ) → r < max_rows → Covers t (clear_row t r c)
unfolding clear_row
clear_row-Covers t r c h =
    edit_row-Covers t (record t { grid = fill_cells (t.cols - c) r c (pen t space) t.grid }) r h
      refl refl refl refl
      (λ i j ne. ground (arith, fill_cells_cell (t.cols - c) r c (pen t space) t.grid i j))

pub clear_rows-Covers : (n r : ℕ) (t : Terminal) → r + n ≤ max_rows → Covers t (clear_rows n r t)
unfolding clear_rows
clear_rows-Covers zero r t h = Covers-refl t
clear_rows-Covers (suc n) r t h =
    Covers-trans (clear_row-Covers t r 0 (omega arith))
      (clear_rows-Covers n (r + 1) (clear_row t r 0) (omega arith))

pub clear_all-Covers : (t : Terminal) → t.rows ≤ max_rows → Covers t (clear_all t)
unfolding clear_all
clear_all-Covers t h =
    Covers-trans (clear_rows-Covers t.rows 0 t (omega arith))
      (Covers-of_eq refl refl refl refl refl)

-- On a screen of 1 to 120 rows, scrolling moves the row below into each row and blanks the last row
-- in the current colours; cells outside the screen stay.
pub scroll_up_cell :
    (t : Terminal) (i j : ℕ)
    → 0 < t.rows
    → t.rows ≤ max_rows
    → (scroll_up t).grid.cell i j ≡ (
        if ltb i t.rows && ltb j t.cols
        then (if i + 1 == t.rows then pen t space else t.grid.cell (i + 1) j)
        else t.grid.cell i j)
unfolding scroll_up touch_all clear_row
scroll_up_cell t i j lo hi =
    let last = sub32 t.rows 1 in
    let cleared = record (copied t) {
      grid = fill_cells (t.cols - 0) last 0 (pen t space) (copied t).grid;
    } in
    ground (
      arith,
      touch_rows-grid (clear_row (copied t) last 0) 0 (clear_row (copied t) last 0).rows,
      touch_rows-grid cleared last (add32 last 1),
      fill_cells_cell (t.cols - 0) last 0 (pen t space) (copied t).grid i j,
      copy_rows_cell (t.rows - 1) t.cols 1 t.grid i j,
    )

pub scroll_up-Covers : (t : Terminal) → IsValid t → Covers t (scroll_up t)
unfolding scroll_up touch_all
scroll_up-Covers t v =
    let last = sub32 t.rows 1 in
    let u = clear_row (copied t) last 0 in
    let same = clear_row-SameFrame (copied t) last 0 in
    let edit = clear_row-Covers (copied t) last 0 (omega arith) in
    record {
      rows = (touch_rows-SameFrame u 0 u.rows).rows ∙ same.rows;
      cols = (touch_rows-SameFrame u 0 u.rows).cols ∙ same.cols;
      grows = λ i d. touch_rows-grows u 0 u.rows i (edit.grows i d);
      kept = λ i j clean. ground (
        arith,
        scroll_up_cell t i j v.rows_pos v.rows_max,
        touch_rows-IsDirty u 0 u.rows i,
        same.rows,
        clean,
      );
    }

pub newline-Covers : (t : Terminal) → IsValid t → Covers t (newline t)
unfolding newline
newline-Covers t v = elim (Bool-cases (leb t.rows (add32 t.cursor_row 1))) [
  | inl full ↦ rw full (scroll_up-Covers t v)
  | inr room ↦ rw room (Covers-of_eq refl refl refl refl refl)
]

wrap_line-Covers : (t : Terminal) → IsValid t → Covers t (wrap_line t)
unfolding wrap_line
wrap_line-Covers t v = elim (Bool-cases (leb t.cols t.cursor_col)) [
  | inl full ↦
      let u = record t { cursor_col = 0 } in
      let u-IsValid : IsValid u = ground arith in
      rw full (
        Covers-trans (Covers-of_eq {t = t} {u = u} refl refl refl refl refl)
          (newline-Covers u u-IsValid))
  | inr room ↦ rw room (Covers-refl t)
]

put_cell-Covers : (t : Terminal) (ch : ℕ) → t.cursor_row < max_rows → Covers t (put_cell t ch)
unfolding put_cell
put_cell-Covers t ch h =
    Covers-trans
      (edit_row-Covers t (record t { grid = write t.grid t.cursor_row t.cursor_col (pen t ch) })
        t.cursor_row h refl refl refl refl
        (λ i j ne. ground (arith, write_cell t.grid t.cursor_row t.cursor_col (pen t ch) i j)))
      (Covers-of_eq refl refl refl refl refl)

pub put_char-Covers : (t : Terminal) (ch : ℕ) → IsValid t → Covers t (put_char t ch)
unfolding put_char
put_char-Covers t ch v =
    let w = wrap_line-IsValid t v in
    Covers-trans (wrap_line-Covers t v) (put_cell-Covers (wrap_line t) ch (omega arith))

pub clear_row_cell :
    (t : Terminal) (r c i j : ℕ)
    → (clear_row t r c).grid.cell i j
      ≡ (if i == r && leb c j && ltb j t.cols then pen t space else t.grid.cell i j)
unfolding clear_row
clear_row_cell t r c i j =
    let cleared = record t { grid = fill_cells (t.cols - c) r c (pen t space) t.grid } in
    ground (
      arith,
      touch_rows-grid cleared r (add32 r 1),
      fill_cells_cell (t.cols - c) r c (pen t space) t.grid i j,
    )

pub clear_rows_cell :
    (n r : ℕ) (t : Terminal) (i j : ℕ)
    → (clear_rows n r t).grid.cell i j
      ≡ (if leb r i && ltb i (r + n) && ltb j t.cols then pen t space else t.grid.cell i j)
unfolding clear_rows
clear_rows_cell zero r t i j = ground arith
clear_rows_cell (suc n) r t i j = ground (
  arith,
  clear_row_cell t r 0 i j,
  clear_row-SameFrame t r 0,
  clear_rows_cell n (r + 1) (clear_row t r 0) i j,
)

pub clear_all_cell :
    (t : Terminal) (i j : ℕ)
    → (clear_all t).grid.cell i j
      ≡ (if ltb i t.rows && ltb j t.cols then pen t space else t.grid.cell i j)
unfolding clear_all
clear_all_cell t i j = ground (arith, clear_rows_cell t.rows 0 t i j)
