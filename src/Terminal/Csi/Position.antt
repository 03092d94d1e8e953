-- ===== src/Terminal/Csi/Position.antt =====
-- Where the cursor goes on `ESC [ row ; col H` (terminal/src/main.cpp).
use i_user_apps.Common.{ℕ, ◌-◌, ◌≤◌, ◌≡◌, refl, arith, ltb, if◌then◌else◌, int_max}
use i_user_apps.Terminal.State.{Terminal, VtParser}
use i_user_apps.Terminal.Invariant.{IsValid}
use i_user_apps.Terminal.Csi.{handle_csi, cursor_position}

-- Coordinate `n`, counted from 1, on a screen of `size`: 0 counts as 1, and what is past the end as
-- the last.
abbrev pub clamped : ℕ → ℕ → ℕ
clamped n size = if ltb n 1 then 0 else if ltb size n then size - 1 else n - 1

pub cursor_position_lem :
    (t : Terminal) (p : VtParser) (a b : ℕ)
    → IsValid t
    → a ≤ int_max
    → b ≤ int_max
    → cursor_position (record t { parser = p }) a b
      ≡ record t { cursor_row = clamped a t.rows; cursor_col = clamped b t.cols; parser = p }
unfolding cursor_position
cursor_position_lem t p a b v ha hb = ground arith

pub handle_csi-position :
    (t : Terminal)
    → handle_csi t b'H'
      ≡ cursor_position t
          (if ltb 0 t.parser.param_count then t.parser.params 0 else 0)
          (if ltb 1 t.parser.param_count then t.parser.params 1 else 0)
unfolding handle_csi
handle_csi-position t = refl
