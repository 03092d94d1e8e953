-- ===== src/Terminal/Csi/Overflow.antt =====
-- A parameter of a control sequence that has overflowed its `int` (terminal/src/main.cpp). The
-- overflow is undefined behaviour in the source; the model takes the wrap-around of the machine.
use i_user_apps.Common.{ℕ, ◌+◌, ◌-◌, ◌≤◌, ◌<◌, ◌≡◌, refl, true, arith, u32_mod, int_max}
use i_user_apps.Terminal.State.{Terminal, max_rows}
use i_user_apps.Terminal.Invariant.{IsValid}
use i_user_apps.Terminal.Screen.{put_char}
use i_user_apps.Terminal.Screen.Text.{put_char-faulted}
use i_user_apps.Terminal.Csi.{cursor_up, handle_csi}

cursor_up_negative :
    (t : Terminal) (a : ℕ)
    → IsValid t
    → int_max < a
    → a + max_rows ≤ u32_mod
    → (cursor_up t a).cursor_row ≡ t.cursor_row + (u32_mod - a)
unfolding cursor_up
cursor_up_negative t a v lo hi = ground arith

cursor_up-cols :
    (t : Terminal) (a : ℕ)
    → ((cursor_up t a).cols ≡ t.cols) × ((cursor_up t a).cursor_col ≡ t.cursor_col)
unfolding cursor_up
cursor_up-cols t a = (refl, refl)

-- On a valid terminal with the cursor on a column, `ESC [ a A` with a bit pattern `a` of a number
-- from the least `int` to -120 leaves the cursor below the array, and the next character is written
-- outside it.
pub handle_csi_up-faulted :
    (t : Terminal) (ch : ℕ)
    → IsValid t
    → t.cursor_col < t.cols
    → 0 < t.parser.param_count
    → int_max < t.parser.params 0
    → t.parser.params 0 + max_rows ≤ u32_mod
    → (put_char (handle_csi t b'A') ch).grid.faulted ≡ true
unfolding handle_csi
handle_csi_up-faulted t ch v h count lo hi =
    let a = t.parser.params 0 in
    let moved = cursor_up_negative t a v lo hi in
    ground (arith, put_char-faulted (cursor_up t a) ch, moved, cursor_up-cols t a, v.rows_pos)
