-- ===== src/Terminal/Csi/Valid.antt =====
-- The control sequences of terminal/src/main.cpp keep the terminal valid, mark every row that they
-- change, and leave the parser alone.
use i_user_apps.Common.{
  ℕ, zero, suc, ◌+◌, ◌-◌, ◌≤◌, ◌<◌, ◌≡◌, refl, ◌∙◌, inl, inr, arith, add32, ltb, ◌==◌,
  if◌then◌else◌, Bool-cases, int_max,
}
use i_user_apps.Terminal.State.{Terminal, VtParser}
use i_user_apps.Terminal.Grid.{blank_cells}
use i_user_apps.Terminal.Grid.Cells.{blank_cells_cell, blank_cells_safe}
use i_user_apps.Terminal.Invariant.{IsValid, Covers, ParamsFit}
use i_user_apps.Terminal.Screen.{touch_rows, clear_row, clear_rows, clear_all, space}
use i_user_apps.Terminal.Screen.Valid.{
  touch_rows-SameFrame, touch_rows-IsValid, clear_row-SameFrame, clear_rows-SameFrame,
  clear_row-IsValid, clear_rows-IsValid, clear_all-IsValid, clear_all-parser,
}
use i_user_apps.Terminal.Screen.Covers.{
  Covers-refl, Covers-trans, Covers-of_eq, edit_row-Covers, clear_row-Covers, clear_rows-Covers,
  clear_all-Covers,
}
use i_user_apps.Terminal.Csi.{
  reset_colors, sgr_code, sgr_codes, apply_sgr, cursor_up, cursor_down, cursor_forward, cursor_back,
  cursor_position, erase_display, erase_line, columns_through_cursor, handle_csi,
}

-- What is kept by each control sequence.
pub record Keeps (t u : Terminal) : Type 0 where
  pub valid : IsValid u
  pub covers : Covers t u
  pub parser : u.parser ≡ t.parser

pub Keeps-refl : (t : Terminal) → IsValid t → Keeps t t
Keeps-refl t v = record { valid = v; covers = Covers-refl t; parser = refl }

pub Keeps-trans : {t u w : Terminal} → Keeps t u → Keeps u w → Keeps t w
Keeps-trans h k = record {
  valid = k.valid;
  covers = Covers-trans h.covers k.covers;
  parser = k.parser ∙ h.parser;
}

sgr_code-Keeps : (t : Terminal) (code : ℕ) → IsValid t → Keeps t (sgr_code t code)
unfolding sgr_code reset_colors
sgr_code-Keeps t code v = record {
  valid = ground arith;
  covers = Covers-of_eq (ground arith) (ground arith) (ground arith) (ground arith) (ground arith);
  parser = ground arith;
}

sgr_codes-Keeps : (n i : ℕ) (p : VtParser) (t : Terminal) → IsValid t → Keeps t (sgr_codes n i p t)
unfolding sgr_codes
sgr_codes-Keeps zero i p t v = record { valid = v; covers = Covers-refl t; parser = refl }
sgr_codes-Keeps (suc n) i p t v =
    let first = sgr_code-Keeps t (p.params i) v in
    Keeps-trans first (sgr_codes-Keeps n (i + 1) p (sgr_code t (p.params i)) first.valid)

apply_sgr-Keeps : (t : Terminal) (p : VtParser) → IsValid t → Keeps t (apply_sgr t p)
unfolding apply_sgr
apply_sgr-Keeps t p v = elim (Bool-cases (p.param_count == 0)) [
  | inl e ↦ rw e (
      unfold reset_colors in
      record {
        valid = ground arith;
        covers = Covers-of_eq refl refl refl refl refl;
        parser = refl;
      })
  | inr e ↦ rw e (sgr_codes-Keeps p.param_count 0 p t v)
]

cursor_up-Keeps : (t : Terminal) (a : ℕ) → a ≤ int_max → IsValid t → Keeps t (cursor_up t a)
unfolding cursor_up
cursor_up-Keeps t a h v = record {
  valid = ground arith;
  covers = Covers-of_eq refl refl refl refl refl;
  parser = refl;
}

cursor_down-Keeps : (t : Terminal) (a : ℕ) → IsValid t → Keeps t (cursor_down t a)
unfolding cursor_down
cursor_down-Keeps t a v = record {
  valid = ground arith;
  covers = Covers-of_eq refl refl refl refl refl;
  parser = refl;
}

cursor_forward-Keeps : (t : Terminal) (a : ℕ) → IsValid t → Keeps t (cursor_forward t a)
unfolding cursor_forward
cursor_forward-Keeps t a v = record {
  valid = ground arith;
  covers = Covers-of_eq refl refl refl refl refl;
  parser = refl;
}

cursor_back-Keeps : (t : Terminal) (a : ℕ) → a ≤ int_max → IsValid t → Keeps t (cursor_back t a)
unfolding cursor_back
cursor_back-Keeps t a h v = record {
  valid = ground arith;
  covers = Covers-of_eq refl refl refl refl refl;
  parser = refl;
}

cursor_position-Keeps : (t : Terminal) (a b : ℕ) → IsValid t → Keeps t (cursor_position t a b)
unfolding cursor_position
cursor_position-Keeps t a b v = record {
  valid = ground arith;
  covers = Covers-of_eq refl refl refl refl refl;
  parser = refl;
}

clear_row-Keeps :
    (t : Terminal) (r c : ℕ) → r < t.rows → c ≤ t.cols → IsValid t → Keeps t (clear_row t r c)
clear_row-Keeps t r c hr hc v = record {
  valid = clear_row-IsValid t r c hr hc v;
  covers = clear_row-Covers t r c (omega arith);
  parser = (clear_row-SameFrame t r c).parser;
}

clear_rows-Keeps :
    (n r : ℕ) (t : Terminal) → r + n ≤ t.rows → IsValid t → Keeps t (clear_rows n r t)
clear_rows-Keeps n r t h v = record {
  valid = clear_rows-IsValid n r t h v;
  covers = clear_rows-Covers n r t (omega arith);
  parser = (clear_rows-SameFrame n r t).parser;
}

clear_all-Keeps : (t : Terminal) → IsValid t → Keeps t (clear_all t)
clear_all-Keeps t v = record {
  valid = clear_all-IsValid t v;
  covers = clear_all-Covers t v.rows_max;
  parser = clear_all-parser t;
}

erase_display-Keeps : (t : Terminal) (a : ℕ) → IsValid t → Keeps t (erase_display t a)
unfolding erase_display
erase_display-Keeps t a v =
    let below = clear_row t t.cursor_row t.cursor_col in
    let below-frame = clear_row-SameFrame t t.cursor_row t.cursor_col in
    let below-Keeps = clear_row-Keeps t t.cursor_row t.cursor_col v.row v.col v in
    let above = clear_rows t.cursor_row 0 t in
    let above-frame = clear_rows-SameFrame t.cursor_row 0 t in
    let above-Keeps = clear_rows-Keeps t.cursor_row 0 t (omega arith) v in
    ground (
      arith,
      clear_all-Keeps t v,
      Keeps-trans below-Keeps (
          clear_rows-Keeps (t.rows - (t.cursor_row + 1)) (t.cursor_row + 1) below
            (omega (arith, below-frame.rows)) below-Keeps.valid),
      Keeps-trans above-Keeps (
          clear_row-Keeps above t.cursor_row 0 (omega (arith, above-frame.rows)) (omega arith)
            above-Keeps.valid),
      Keeps-refl t v,
    )

erase_line-Keeps : (t : Terminal) (a : ℕ) → IsValid t → Keeps t (erase_line t a)
unfolding erase_line
erase_line-Keeps t a v =
    let n = columns_through_cursor t in
    let blanked = record t { grid = blank_cells n t.cursor_row 0 space t.grid } in
    let blanked-IsValid : IsValid blanked =
      ground (arith, blank_cells_safe n t.cursor_row 0 space t.grid) in
    let marked : Keeps t (touch_rows blanked t.cursor_row (add32 t.cursor_row 1)) = record {
      valid =
          touch_rows-IsValid blanked t.cursor_row (add32 t.cursor_row 1) (omega arith)
            blanked-IsValid;
      covers =
          edit_row-Covers t blanked t.cursor_row (omega arith) refl refl refl refl
            (λ i j ne. ground (arith, blank_cells_cell n t.cursor_row 0 space t.grid i j));
      parser = (touch_rows-SameFrame blanked t.cursor_row (add32 t.cursor_row 1)).parser;
    } in
    ground (
      arith,
      clear_row-Keeps t t.cursor_row t.cursor_col v.row v.col v,
      marked,
      clear_row-Keeps t t.cursor_row 0 v.row (omega arith) v,
      Keeps-refl t v,
    )

-- A control sequence whose parameters fit an `int` keeps the terminal valid, and marks what it
-- changes.
pub handle_csi-Keeps :
    (t : Terminal) (final : ℕ) → ParamsFit t → IsValid t → Keeps t (handle_csi t final)
unfolding handle_csi
handle_csi-Keeps t final fit v =
    let p = t.parser in
    let a : ℕ = if ltb 0 p.param_count then p.params 0 else 0 in
    let b : ℕ = if ltb 1 p.param_count then p.params 1 else 0 in
    let a-le : a ≤ int_max = ground (arith, fit 0) in
    ground (
      arith,
      cursor_up-Keeps t a a-le v,
      cursor_down-Keeps t a v,
      cursor_forward-Keeps t a v,
      cursor_back-Keeps t a a-le v,
      cursor_position-Keeps t a b v,
      erase_display-Keeps t a v,
      erase_line-Keeps t a v,
      apply_sgr-Keeps t p v,
      Keeps-refl t v,
    )
