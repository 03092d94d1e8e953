-- ===== src/Terminal/Screen/Valid.antt =====
-- The editing operations of terminal/src/main.cpp keep the terminal valid.
use i_user_apps.Common.{
  ℕ, zero, suc, ◌+◌, ◌-◌, ◌≤◌, ◌<◌, ◌≡◌, inl, inr, arith, sub32, refl, leb, Bool-cases, add32,
}
use i_user_apps.Terminal.State.{Terminal, max_rows, max_cols}
use i_user_apps.Terminal.Grid.{fill_cells, copy_rows}
use i_user_apps.Terminal.Grid.Cells.{write_safe, fill_cells_safe, copy_rows_safe}
use i_user_apps.Terminal.Invariant.{IsValid}
use i_user_apps.Terminal.Screen.{
  pen, space, touch_rows, touch_all, clear_row, clear_rows, clear_all, scroll_up, newline, put_cell,
  wrap_line, put_char,
}

-- The same screen, cursor, colours and parser: what an operation on cells and dirty rows leaves.
pub record SameFrame (t u : Terminal) : Type 0 where
  pub rows : u.rows ≡ t.rows
  pub cols : u.cols ≡ t.cols
  pub cursor_row : u.cursor_row ≡ t.cursor_row
  pub cursor_col : u.cursor_col ≡ t.cursor_col
  pub cur_fg : u.cur_fg ≡ t.cur_fg
  pub cur_bg : u.cur_bg ≡ t.cur_bg
  pub parser : u.parser ≡ t.parser

pub touch_rows-SameFrame : (t : Terminal) (a b : ℕ) → SameFrame t (touch_rows t a b)
unfolding touch_rows
touch_rows-SameFrame t a b = ground arith

pub touch_rows-grid : (t : Terminal) (a b : ℕ) → (touch_rows t a b).grid ≡ t.grid
unfolding touch_rows
touch_rows-grid t a b = ground arith

pub touch_rows-IsValid :
    (t : Terminal) (a b : ℕ) → b ≤ max_rows → IsValid t → IsValid (touch_rows t a b)
unfolding touch_rows
touch_rows-IsValid t a b h v = ground arith

pub clear_row-SameFrame : (t : Terminal) (r c : ℕ) → SameFrame t (clear_row t r c)
unfolding clear_row touch_rows
clear_row-SameFrame t r c = ground arith

pub clear_row-IsValid :
    (t : Terminal) (r c : ℕ) → r < t.rows → c ≤ t.cols → IsValid t → IsValid (clear_row t r c)
unfolding clear_row touch_rows
clear_row-IsValid t r c hr hc v = ground (
  arith,
  fill_cells_safe (t.cols - c) r c (record { ch = b' '; fg = t.cur_fg; bg = t.cur_bg }) t.grid,
)

pub clear_rows-SameFrame : (n r : ℕ) (t : Terminal) → SameFrame t (clear_rows n r t)
unfolding clear_rows
clear_rows-SameFrame zero r t = ground arith
clear_rows-SameFrame (suc n) r t =
    ground (arith, clear_row-SameFrame t r 0, clear_rows-SameFrame n (r + 1) (clear_row t r 0))

pub clear_rows-IsValid :
    (n r : ℕ) (t : Terminal) → r + n ≤ t.rows → IsValid t → IsValid (clear_rows n r t)
unfolding clear_rows
clear_rows-IsValid zero r t h v = v
clear_rows-IsValid (suc n) r t h v =
    clear_rows-IsValid n (r + 1) (clear_row t r 0) (omega (arith, clear_row-SameFrame t r 0))
      (clear_row-IsValid t r 0 (omega arith) (omega arith) v)

pub clear_all-IsValid : (t : Terminal) → IsValid t → IsValid (clear_all t)
unfolding clear_all
clear_all-IsValid t v =
    ground (arith, clear_rows-IsValid t.rows 0 t, clear_rows-SameFrame t.rows 0 t)

-- The screen of `scroll_up` after its loops.
abbrev pub copied : Terminal → Terminal
copied t = record t { grid = copy_rows (t.rows - 1) t.cols 1 t.grid }

copied-IsValid : (t : Terminal) → IsValid t → IsValid (copied t)
copied-IsValid t v = ground (arith, copy_rows_safe (t.rows - 1) t.cols 1 t.grid)

pub scroll_up-SameFrame : (t : Terminal) → SameFrame t (scroll_up t)
unfolding scroll_up touch_all
scroll_up-SameFrame t = ground (
  arith,
  clear_row-SameFrame (copied t) (sub32 t.rows 1) 0,
  touch_rows-SameFrame (clear_row (copied t) (sub32 t.rows 1) 0) 0
      (clear_row (copied t) (sub32 t.rows 1) 0).rows,
)

pub scroll_up-IsValid : (t : Terminal) → IsValid t → IsValid (scroll_up t)
unfolding scroll_up touch_all
scroll_up-IsValid t v =
    let u = clear_row (copied t) (sub32 t.rows 1) 0 in
    let frame = clear_row-SameFrame (copied t) (sub32 t.rows 1) 0 in
    touch_rows-IsValid u 0 u.rows (omega arith) (
      clear_row-IsValid (copied t) (sub32 t.rows 1) 0 (omega arith) (omega arith)
        (copied-IsValid t v))

pub newline-IsValid : (t : Terminal) → IsValid t → IsValid (newline t)
unfolding newline
newline-IsValid t v = ground (arith, scroll_up-IsValid t v)

pub newline-size :
    (t : Terminal)
    → ((newline t).rows ≡ t.rows)
      × ((newline t).cols ≡ t.cols)
      × ((newline t).cursor_col ≡ t.cursor_col)
unfolding newline
newline-size t = ground (arith, scroll_up-SameFrame t)

pub wrap_line-IsValid :
    (t : Terminal)
    → IsValid t
    → IsValid (wrap_line t) × (wrap_line t).cursor_col < (wrap_line t).cols
unfolding wrap_line
wrap_line-IsValid t v = elim (Bool-cases (leb t.cols t.cursor_col)) [
  | inl full ↦
      let u = record t { cursor_col = 0 } in
      let u-IsValid : IsValid u = ground arith in
      rw full (newline-IsValid u u-IsValid, ground (arith, newline-size u))
  | inr room ↦ rw room (v, ground arith)
]

pub put_cell-IsValid :
    (t : Terminal) (ch : ℕ) → t.cursor_col < t.cols → IsValid t → IsValid (put_cell t ch)
unfolding put_cell touch_rows
put_cell-IsValid t ch h v = ground (
  arith,
  write_safe t.grid t.cursor_row t.cursor_col (record { ch = ch; fg = t.cur_fg; bg = t.cur_bg }),
)

pub put_char-IsValid : (t : Terminal) (ch : ℕ) → IsValid t → IsValid (put_char t ch)
unfolding put_char
put_char-IsValid t ch v = let w = wrap_line-IsValid t v in put_cell-IsValid (wrap_line t) ch w.1 w.0

pub clear_all-parser : (t : Terminal) → (clear_all t).parser ≡ t.parser
unfolding clear_all
clear_all-parser t = (clear_rows-SameFrame t.rows 0 t).parser

pub newline-parser : (t : Terminal) → (newline t).parser ≡ t.parser
unfolding newline
newline-parser t = ground (arith, scroll_up-SameFrame t)

pub put_char-parser : (t : Terminal) (ch : ℕ) → (put_char t ch).parser ≡ t.parser
unfolding put_char put_cell wrap_line touch_rows
put_char-parser t ch = ground (arith, newline-parser (record t { cursor_col = 0 }))

pub touch_rows-bottom :
    (t : Terminal) (a b : ℕ)
    → b ≤ max_rows
    → t.dirty_bottom ≤ max_rows
    → (touch_rows t a b).dirty_bottom ≤ max_rows
unfolding touch_rows
touch_rows-bottom t a b h k = ground arith

pub scroll_up_safe :
    (t : Terminal)
    → 0 < t.rows
    → t.rows ≤ max_rows
    → t.cols ≤ max_cols
    → (scroll_up t).grid.faulted ≡ t.grid.faulted
unfolding scroll_up touch_all clear_row
scroll_up_safe t lo hi wide =
    let last = sub32 t.rows 1 in
    let cleared = record (copied t) {
      grid = fill_cells (t.cols - 0) last 0 (pen t space) (copied t).grid;
    } in
    ground (
      arith,
      touch_rows-grid (clear_row (copied t) last 0) 0 (clear_row (copied t) last 0).rows,
      touch_rows-grid cleared last (add32 last 1),
      fill_cells_safe (t.cols - 0) last 0 (pen t space) (copied t).grid,
      copy_rows_safe (t.rows - 1) t.cols 1 t.grid,
    )

pub scroll_up-bottom :
    (t : Terminal)
    → 0 < t.rows
    → t.rows ≤ max_rows
    → t.dirty_bottom ≤ max_rows
    → (scroll_up t).dirty_bottom ≤ max_rows
unfolding scroll_up touch_all clear_row
scroll_up-bottom t lo hi h =
    let last = sub32 t.rows 1 in
    let cleared = record (copied t) {
      grid = fill_cells (t.cols - 0) last 0 (pen t space) (copied t).grid;
    } in
    let first = touch_rows-bottom cleared last (add32 last 1) (omega arith) h in
    let same = touch_rows-SameFrame cleared last (add32 last 1) in
    touch_rows-bottom (touch_rows cleared last (add32 last 1)) 0 _ (omega arith) first

pub touch_all_lem : (t : Terminal) → touch_all t ≡ touch_rows t 0 t.rows
unfolding touch_all
touch_all_lem t = refl
