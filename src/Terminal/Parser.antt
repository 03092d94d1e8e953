-- ===== src/Terminal/Parser.antt =====
-- `parser_feed` and `feed_bytes` of terminal/src/main.cpp: the escape sequence state machine.
pub mod Feed
pub mod Position
pub mod Text
use i_user_apps.Common.{
  ℕ, zero, suc, ◌+◌, ◌-◌, ◌%◌, Bool, true, false, ◌&&◌, ltb, leb, ◌==◌, if◌then◌else◌, List, [],
  ◌∷◌, add32, mul32,
}
use i_user_apps.Common.Decimal.{is_digit}
use i_user_apps.Terminal.State.{Terminal, VtParser, ParserState, ground_state, escape, csi}
use i_user_apps.Terminal.Screen.{newline, put_char, space}
use i_user_apps.Terminal.Csi.{handle_csi}

abbrev pub with_parser : Terminal → VtParser → Terminal
with_parser t p = record t { parser = p }

abbrev pub with_state : Terminal → ParserState → Terminal
with_state t s = record t { parser = record (t.parser) { state = s } }

-- `(cursorCol + 8) & ~7u`.
abbrev pub next_tab_stop : ℕ → ℕ
next_tab_stop col = let moved = add32 col 8 in moved - moved % 8

-- `while (cursorCol < next && cursorCol < cols) put_char(t, ' ')`.
unfoldable pub tab_loop : ℕ → ℕ → Terminal → Terminal
tab_loop zero next t = t
tab_loop (suc fuel) next t =
    let rest = tab_loop fuel next (put_char t space) in
    if ltb t.cursor_col next && ltb t.cursor_col t.cols then rest else t

-- Each round moves the cursor one column on, so eight rounds reach the next tab stop.
abbrev pub tab_fuel : ℕ
tab_fuel = 8

unfoldable pub feed_ground : Terminal → ℕ → Terminal
feed_ground t ch =
    if ch == 0x1b
    then with_state t escape
    else if ch == 10
    then newline t
    else if ch == 13
    then record t { cursor_col = 0 }
    else if ch == 8
    then (if ltb 0 t.cursor_col then record t { cursor_col = t.cursor_col - 1 } else t)
    else if ch == 9
    then tab_loop tab_fuel (next_tab_stop t.cursor_col) t
    else if ch == 7
    then t
    else if leb 32 ch
    then put_char t ch
    else t

unfoldable pub feed_escape : Terminal → ℕ → Terminal
feed_escape t ch =
    if ch == b'['
    then with_parser t (record {
      state = csi;
      params = λ i. if ltb i 8 then 0 else t.parser.params i;
      param_count = 0;
      param_started = false;
    })
    else with_state t ground_state

-- `params[i] = v`.
abbrev pub set_param : VtParser → ℕ → ℕ → VtParser
set_param p i v = record p { params = λ j. if j == i then v else p.params j }

-- `params[paramCount - 1]` after the digit `ch`.
abbrev pub accumulate : ℕ → ℕ → ℕ
accumulate value ch = add32 (mul32 value 10) (ch - b'0')

unfoldable pub csi_digit : VtParser → ℕ → VtParser
csi_digit p ch =
    let count = if p.param_count == 0 then 1 else p.param_count in
    record (set_param p (count - 1) (accumulate (p.params (count - 1)) ch)) {
      param_count = count;
      param_started = true;
    }

unfoldable pub csi_separator : VtParser → VtParser
csi_separator p =
    let count = if ltb p.param_count 8 then p.param_count + 1 else p.param_count in
    if ltb 0 count && leb count 8
    then record (set_param p (count - 1) 0) { param_count = count }
    else record p { param_count = count }

unfoldable pub feed_csi : Terminal → ℕ → Terminal
feed_csi t ch =
    if is_digit ch
    then with_parser t (csi_digit t.parser ch)
    else if ch == b';'
    then with_parser t (csi_separator t.parser)
    else if ch == b'?'
    then t
    else if leb 0x40 ch && leb ch 0x7e
    then with_state (handle_csi t ch) ground_state
    else with_state t ground_state

-- The switch on `p.state`.
unfoldable pub feed_in : ParserState → Terminal → ℕ → Terminal
feed_in ground_state t ch = feed_ground t ch
feed_in escape t ch = feed_escape t ch
feed_in csi t ch = feed_csi t ch

unfoldable pub parser_feed : Terminal → ℕ → Terminal
parser_feed t ch = feed_in t.parser.state t ch

unfoldable pub feed_bytes : Terminal → List ℕ → Terminal
feed_bytes t [] = t
feed_bytes t (ch ∷ bytes) = feed_bytes (parser_feed t ch) bytes
