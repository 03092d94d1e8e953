-- ===== src/Terminal/State.antt =====
-- The data of the terminal (terminal/src/main.cpp). A `char` is its byte, below 256; a colour is
-- the argument that the source gives to `ui::rgb`; an `int` and a `uint32_t` are bit patterns.
use i_user_apps.Common.{ℕ, Bool, List, [], ◌∷◌}

abbrev pub max_rows : ℕ
max_rows = 120

abbrev pub max_cols : ℕ
max_cols = 300

abbrev pub padding_x : ℕ
padding_x = 12

abbrev pub padding_y : ℕ
padding_y = 12

abbrev pub color_background : ℕ
color_background = 0x091218

abbrev pub color_default_fg : ℕ
color_default_fg = 0xd7f2e6

abbrev pub ansi_colors : List ℕ
ansi_colors =
    0x101010 ∷ 0xcc5555 ∷ 0x66bb66 ∷ 0xcccc66 ∷ 0x5588cc ∷ 0xbb66bb ∷ 0x66bbbb ∷ 0xd7f2e6 ∷ 0x505050
    ∷ 0xef798a ∷ 0x85d39a ∷ 0xf2c14e ∷ 0x3ba4d8 ∷ 0xc98ad8 ∷ 0x66cccc ∷ 0xffffff ∷ []

pub record Cell : Type 0 where
  pub ch : ℕ
  pub fg : ℕ
  pub bg : ℕ

pub data ParserState : Type 0 where
  ground_state escape csi : ParserState

pub record VtParser : Type 0 where
  pub state : ParserState
  pub params : ℕ → ℕ
  pub param_count : ℕ
  pub param_started : Bool

-- `Cell grid[kMaxRows][kMaxCols]`. `faulted` is no part of the program: it records that an index
-- has left the array.
pub record Grid : Type 0 where
  pub cell : ℕ → ℕ → Cell
  pub faulted : Bool

-- Rows [dirty_top, dirty_bottom) changed since the last repaint.
pub record Terminal : Type 0 where
  pub grid : Grid
  pub rows : ℕ
  pub cols : ℕ
  pub cursor_row : ℕ
  pub cursor_col : ℕ
  pub cur_fg : ℕ
  pub cur_bg : ℕ
  pub parser : VtParser
  pub dirty_top : ℕ
  pub dirty_bottom : ℕ
