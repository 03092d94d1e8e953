-- ===== src/Terminal/Screen/Text.antt =====
-- What `put_char` of terminal/src/main.cpp writes when the cursor is on a column.
use i_user_apps.Common.{
  ℕ, ◌+◌, ◌-◌, ◌≤◌, ◌<◌, ◌≡◌, refl, true, ◌∙◌, true, arith, ltb, leb, ◌==◌, ◌&&◌, if◌then◌else◌,
  List, [], ◌∷◌, length, get_or,
}
use i_user_apps.Terminal.State.{Terminal, max_rows}
use i_user_apps.Terminal.Grid.Cells.{write_cell, write-faulted}
use i_user_apps.Terminal.Invariant.{IsValid}
use i_user_apps.Terminal.Screen.{touch_rows, put_cell, wrap_line, put_char, pen}

-- `u` is `t` with `text` written from the cursor on, inside its row.
pub record Written (t : Terminal) (text : List ℕ) (u : Terminal) : Type 0 where
  pub cell :
      (i j : ℕ)
      → u.grid.cell i j ≡ (
          if i == t.cursor_row && leb t.cursor_col j && ltb j (t.cursor_col + length text)
          then pen t (get_or text (j - t.cursor_col) 0)
          else t.grid.cell i j)
  pub cursor_row : u.cursor_row ≡ t.cursor_row
  pub cursor_col : u.cursor_col ≡ t.cursor_col + length text
  pub size : (u.rows ≡ t.rows) × (u.cols ≡ t.cols)
  pub colours : (u.cur_fg ≡ t.cur_fg) × (u.cur_bg ≡ t.cur_bg)
  pub parser : u.parser ≡ t.parser

pub put_char-Written :
    (t : Terminal) (ch : ℕ)
    → IsValid t
    → t.cursor_col < t.cols
    → Written t (ch ∷ []) (put_char t ch)
unfolding put_char wrap_line put_cell touch_rows
put_char-Written t ch v h = record {
  cell = λ i j. ground (arith, write_cell t.grid t.cursor_row t.cursor_col (pen t ch) i j);
  cursor_row = ground arith;
  cursor_col = ground arith;
  size = ground arith;
  colours = ground arith;
  parser = ground arith;
}

pub Written-nil : (t : Terminal) → Written t [] t
Written-nil t = record {
  cell = λ i j. ground arith;
  cursor_row = refl;
  cursor_col = omega arith;
  size = (refl, refl);
  colours = (refl, refl);
  parser = refl;
}

pub Written-cons :
    {t u w : Terminal} {ch : ℕ} {text : List ℕ}
    → Written t (ch ∷ []) u
    → Written u text w
    → Written t (ch ∷ text) w
Written-cons {t} {u} {w} first rest = record {
  cell = λ i j.
      ground
        (arith, rest.cell i j, first.cell i j, first.cursor_row, first.cursor_col, first.colours);
  cursor_row = rest.cursor_row ∙ first.cursor_row;
  cursor_col = omega (arith, rest.cursor_col, first.cursor_col);
  size = (rest.size.0 ∙ first.size.0, rest.size.1 ∙ first.size.1);
  colours = (rest.colours.0 ∙ first.colours.0, rest.colours.1 ∙ first.colours.1);
  parser = rest.parser ∙ first.parser;
}

-- A cursor outside the array makes `put_char` leave it.
pub put_char-faulted :
    (t : Terminal) (ch : ℕ)
    → t.cursor_col < t.cols
    → max_rows ≤ t.cursor_row
    → (put_char t ch).grid.faulted ≡ true
unfolding put_char wrap_line put_cell touch_rows
put_char-faulted t ch h out =
    ground (arith, write-faulted t.grid t.cursor_row t.cursor_col (pen t ch))
