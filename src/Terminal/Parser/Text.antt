-- ===== src/Terminal/Parser/Text.antt =====
-- Printing text and tabs on the terminal of terminal/src/main.cpp.
use i_user_apps.Common.{
  ℕ, zero, suc, ◌+◌, ◌-◌, ◌≤◌, ◌≡◌, ◌∙◌, ap, arith, ltb, ◌&&◌, List, [], ◌∷◌, length, replicate,
  Bool-cases, inl, inr, ◌/◌, ◌*◌,
}
use Prim.Native.Nat.{min}
use i_user_apps.Terminal.State.{Terminal, ground_state}
use i_user_apps.Terminal.Invariant.{IsValid}
use i_user_apps.Terminal.Screen.{put_char, space}
use i_user_apps.Terminal.Screen.Text.{Written, Written-nil, Written-cons, put_char-Written}
use i_user_apps.Terminal.Screen.Valid.{put_char-IsValid}
use i_user_apps.Terminal.Parser.{
  feed_in, feed_ground, parser_feed, feed_bytes, tab_loop, tab_fuel, next_tab_stop,
}

abbrev pub AllPrintable : List ℕ → Type 0
AllPrintable [] = Unit {0}
AllPrintable (ch ∷ text) = (32 ≤ ch) × AllPrintable text

feed_printable :
    (t : Terminal) (ch : ℕ)
    → t.parser.state ≡ ground_state
    → 32 ≤ ch
    → parser_feed t ch ≡ put_char t ch
unfolding parser_feed feed_in feed_ground
feed_printable t ch e h = ap (λ s. feed_in s t ch) e ∙ ground arith

-- On a valid terminal outside of an escape sequence, printable text that fits behind the cursor is
-- written there in the current colours, one cell for each byte; every other cell, the colours and
-- the parser stay, and the cursor stands behind the text.
pub feed_bytes-text :
    (text : List ℕ) (t : Terminal)
    → IsValid t
    → t.parser.state ≡ ground_state
    → AllPrintable text
    → t.cursor_col + length text ≤ t.cols
    → Written t text (feed_bytes t text)
unfolding feed_bytes
feed_bytes-text [] t v e all fits = Written-nil t
feed_bytes-text (ch ∷ text) t v e all fits =
    let first = put_char-Written t ch v (omega arith) in
    let rest =
      feed_bytes-text text (put_char t ch) (put_char-IsValid t ch v)
        (ap (λ p. p.state) first.parser ∙ e) all.1
        (omega (arith, first.cursor_col, first.size.1)) in
    rw (feed_printable t ch e all.0) (Written-cons first rest)

-- The loop writes blanks up to the tab stop or the end of the line, and has rounds enough for it.
tab_loop-Written :
    (fuel next : ℕ) (t : Terminal)
    → IsValid t
    → next ≤ t.cursor_col + fuel
    → Written t (replicate (min next t.cols - t.cursor_col) space) (tab_loop fuel next t)
unfolding tab_loop
tab_loop-Written zero next t v hi =
    let none_left : min next t.cols - t.cursor_col ≡ 0 = omega arith in rw none_left (Written-nil t)
tab_loop-Written (suc fuel) next t v hi =
    elim (Bool-cases (ltb t.cursor_col next && ltb t.cursor_col t.cols)) [
      | inl more ↦
          let first = put_char-Written t space v (ground arith) in
          let rest =
            tab_loop-Written fuel next (put_char t space) (put_char-IsValid t space v)
              (omega (arith, first.cursor_col)) in
          let one_less : min next t.cols - t.cursor_col
              ≡ suc (min next (put_char t space).cols - (put_char t space).cursor_col) =
            ground (arith, first.cursor_col, first.size) in
          rw (more, one_less) (Written-cons first rest)
      | inr over ↦
          let none_left : min next t.cols - t.cursor_col ≡ 0 = ground arith in
          rw (over, none_left) (Written-nil t)
    ]

-- On a valid terminal outside of an escape sequence, a tab writes blanks up to the next multiple of
-- 8, or to the end of the line if that comes first, and leaves the cursor there; every other cell,
-- the colours and the parser stay.
pub parser_feed-tab :
    (t : Terminal)
    → IsValid t
    → t.parser.state ≡ ground_state
    → Written t
        (replicate (min ((t.cursor_col / 8 + 1) * 8) t.cols - t.cursor_col) space)
        (parser_feed t 9)
unfolding parser_feed feed_in feed_ground
parser_feed-tab t v e =
    let fed : parser_feed t 9 ≡ tab_loop tab_fuel (next_tab_stop t.cursor_col) t =
      ap (λ s. feed_in s t 9) e in
    let stop : next_tab_stop t.cursor_col ≡ (t.cursor_col / 8 + 1) * 8 = omega arith in
    rw (fed, ← stop) (tab_loop-Written tab_fuel (next_tab_stop t.cursor_col) t v (omega arith))
