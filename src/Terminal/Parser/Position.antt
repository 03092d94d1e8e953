-- ===== src/Terminal/Parser/Position.antt =====
-- Numeric parameters of control sequences (terminal/src/main.cpp): what number a run of digits
-- gives, and where a cursor position sequence leads.
use i_user_apps.Common.{
  ℕ, suc, ◌+◌, ◌-◌, ◌*◌, ◌≤◌, ◌<◌, ◌≡◌, ◌≢◌, refl, sym, ◌∙◌, ap, arith, ltb, if◌then◌else◌, int_max,
  subst, List, [], ◌∷◌, ◌++◌, true,
}
use i_user_apps.Common.Decimal.{decimal_from, AllDigits, is_digit}
use i_user_apps.Terminal.State.{Terminal, VtParser, ground_state, escape, csi}
use i_user_apps.Terminal.Invariant.{IsValid}
use i_user_apps.Terminal.Csi.{handle_csi}
use i_user_apps.Terminal.Csi.Position.{handle_csi-position, cursor_position_lem, clamped}
use i_user_apps.Terminal.Parser.{
  with_parser, with_state, feed_in, feed_ground, feed_escape, feed_csi, csi_digit, csi_separator,
  parser_feed, feed_bytes,
}

le-decimal_from : (ds : List ℕ) (v : ℕ) → v ≤ decimal_from v ds
le-decimal_from [] v = omega arith
le-decimal_from (d ∷ ds) v = omega (arith, le-decimal_from ds (v * 10 + (d - b'0')))

pub feed_bytes-append :
    (xs ys : List ℕ) (t : Terminal) → feed_bytes t (xs ++ ys) ≡ feed_bytes (feed_bytes t xs) ys
unfolding feed_bytes
feed_bytes-append [] ys t = refl
feed_bytes-append (x ∷ xs) ys t = feed_bytes-append xs ys (parser_feed t x)

-- Inside a control sequence: `u` is `t` but for the parser, which has read the number `v` into
-- parameter `k`.
pub record HasRead (t u : Terminal) (k v : ℕ) : Type 0 where
  pub rest : u ≡ with_parser t u.parser
  pub state : u.parser.state ≡ csi
  pub count : u.parser.param_count ≡ suc k
  pub value : u.parser.params k ≡ v
  pub others : (j : ℕ) → j ≢ k → u.parser.params j ≡ t.parser.params j

feed_csi-at : (t : Terminal) (ch : ℕ) → t.parser.state ≡ csi → parser_feed t ch ≡ feed_csi t ch
unfolding parser_feed feed_in
feed_csi-at t ch e = ap (λ s. feed_in s t ch) e

feed_digit :
    (t : Terminal) (d : ℕ)
    → t.parser.state ≡ csi
    → is_digit d ≡ true
    → parser_feed t d ≡ with_parser t (csi_digit t.parser d)
unfolding feed_csi
feed_digit t d e h = feed_csi-at t d e ∙ rw h

digit-HasRead :
    (t u : Terminal) (d k v : ℕ)
    → is_digit d ≡ true
    → v * 10 + (d - b'0') ≤ int_max
    → HasRead t u k v
    → HasRead t (with_parser u (csi_digit u.parser d)) k (v * 10 + (d - b'0'))
unfolding csi_digit
digit-HasRead t u d k v digit small h = record {
  rest = ap (λ x. with_parser x (csi_digit u.parser d)) h.rest;
  state = h.state;
  count = ground arith;
  value = ground arith;
  others = λ j ne. ground (arith, h.others j ne);
}

feed_digits-HasRead :
    (ds : List ℕ) (t u : Terminal) (k v : ℕ)
    → AllDigits ds
    → decimal_from v ds ≤ int_max
    → HasRead t u k v
    → HasRead t (feed_bytes u ds) k (decimal_from v ds)
unfolding feed_bytes
feed_digits-HasRead [] t u k v all small h = h
feed_digits-HasRead (d ∷ ds) t u k v all small h =
    let v' = v * 10 + (d - b'0') in
    feed_digits-HasRead ds t (parser_feed u d) k v' all.1 small (
      rw (feed_digit u d h.state all.0)
        (digit-HasRead t u d k v all.0 (omega (arith, le-decimal_from ds v')) h))

-- The first digit of a sequence opens parameter 0.
first_digit-HasRead :
    (t : Terminal) (d : ℕ)
    → t.parser.state ≡ csi
    → t.parser.param_count ≡ 0
    → t.parser.params 0 ≡ 0
    → is_digit d ≡ true
    → HasRead t (parser_feed t d) 0 (0 * 10 + (d - b'0'))
unfolding csi_digit
first_digit-HasRead t d e none_yet zeroed digit = rw (feed_digit t d e digit) (opened)
  where
    opened : HasRead t (with_parser t (csi_digit t.parser d)) 0 (0 * 10 + (d - b'0'))
    opened = record {
      rest = refl;
      state = e;
      count = ground arith;
      value = ground arith;
      others = λ j ne. ground arith;
    }

feed_separator :
    (t : Terminal)
    → t.parser.state ≡ csi
    → parser_feed t b';' ≡ with_parser t (csi_separator t.parser)
unfolding feed_csi
feed_separator t e = feed_csi-at t b';' e

separator-HasRead :
    (t : Terminal) (k : ℕ)
    → t.parser.state ≡ csi
    → t.parser.param_count ≡ k
    → k < 8
    → HasRead t (with_parser t (csi_separator t.parser)) k 0
unfolding csi_separator
separator-HasRead t k e count room = record {
  rest = ground arith;
  state = ground arith;
  count = ground arith;
  value = ground arith;
  others = λ j ne. ground arith;
}

-- `ESC [`, from the ground state.
abbrev opening : List ℕ
opening = 0x1b ∷ b'[' ∷ []

feed_opening :
    (t : Terminal)
    → t.parser.state ≡ ground_state
    → let u = feed_bytes t opening in
      (u ≡ with_parser t u.parser)
      × (u.parser.state ≡ csi)
      × (u.parser.param_count ≡ 0)
      × (u.parser.params 0 ≡ 0)
unfolding feed_bytes parser_feed feed_in feed_ground feed_escape
feed_opening t e =
    let escaped : parser_feed t 0x1b ≡ with_state t escape = ap (λ s. feed_in s t 0x1b) e in
    rw escaped (refl, refl, refl, refl)

feed_final_position :
    (t : Terminal)
    → t.parser.state ≡ csi
    → parser_feed t b'H' ≡ with_state (handle_csi t b'H') ground_state
unfolding feed_csi
feed_final_position t e = feed_csi-at t b'H' e

-- `u` is `t` with the cursor at (row, col), outside any control sequence.
pub record MovedTo (row col : ℕ) (t u : Terminal) : Type 0 where
  pub screen : u ≡ record t { cursor_row = row; cursor_col = col; parser = u.parser }
  pub state : u.parser.state ≡ ground_state

rest_trans :
    (t u w : Terminal) (p q : VtParser)
    → u ≡ with_parser t p
    → w ≡ with_parser u q
    → w ≡ with_parser t q
rest_trans t u w p q h k = k ∙ ap (λ x. with_parser x q) h

final-MovedTo :
    (t : Terminal) (p : VtParser) (a b : ℕ)
    → IsValid t
    → p.state ≡ csi
    → (if ltb 0 p.param_count then p.params 0 else 0) ≡ a
    → (if ltb 1 p.param_count then p.params 1 else 0) ≡ b
    → a ≤ int_max
    → b ≤ int_max
    → MovedTo (clamped a t.rows) (clamped b t.cols) t (parser_feed (with_parser t p) b'H')
final-MovedTo t p a b v e ha hb small-a small-b =
    rw
      (
        feed_final_position (with_parser t p) e,
        handle_csi-position (with_parser t p),
        ha,
        hb,
        cursor_position_lem t p a b v small-a small-b,
      )
      (record { screen = refl; state = refl })

final-MovedTo_of_rest :
    (t u : Terminal) (a b : ℕ)
    → IsValid t
    → u ≡ with_parser t u.parser
    → u.parser.state ≡ csi
    → (if ltb 0 u.parser.param_count then u.parser.params 0 else 0) ≡ a
    → (if ltb 1 u.parser.param_count then u.parser.params 1 else 0) ≡ b
    → a ≤ int_max
    → b ≤ int_max
    → MovedTo (clamped a t.rows) (clamped b t.cols) t (parser_feed u b'H')
final-MovedTo_of_rest t u a b v rest e ha hb small-a small-b =
    subst (λ x. MovedTo (clamped a t.rows) (clamped b t.cols) t (parser_feed x b'H')) (sym rest)
      (final-MovedTo t u.parser a b v e ha hb small-a small-b)

feed_pair :
    (t : Terminal) (r : ℕ) (rs cs : List ℕ)
    → feed_bytes t (opening ++ ((r ∷ rs) ++ (b';' ∷ (cs ++ (b'H' ∷ [])))))
      ≡ parser_feed
          (feed_bytes (parser_feed (feed_bytes (parser_feed (feed_bytes t opening) r) rs) b';') cs)
          b'H'
unfolding feed_bytes
feed_pair t r rs cs = feed_bytes-append rs _ _ ∙ feed_bytes-append cs _ _

feed_single :
    (t : Terminal) (cs : List ℕ)
    → feed_bytes t (opening ++ (b';' ∷ (cs ++ (b'H' ∷ []))))
      ≡ parser_feed (feed_bytes (parser_feed (feed_bytes t opening) b';') cs) b'H'
unfolding feed_bytes
feed_single t cs = feed_bytes-append cs _ _

-- On a valid terminal outside of an escape sequence, `ESC [ rows ; cols H`, the numbers in decimal
-- and at most the greatest `int`, moves the cursor to that place, counted from 1 and held to the
-- screen, and changes nothing else. (An empty second number counts as 1.)
pub feed-position :
    (t : Terminal) (r : ℕ) (rs cs : List ℕ)
    → IsValid t
    → t.parser.state ≡ ground_state
    → AllDigits (r ∷ rs)
    → AllDigits cs
    → decimal_from 0 (r ∷ rs) ≤ int_max
    → decimal_from 0 cs ≤ int_max
    → MovedTo
        (clamped (decimal_from 0 (r ∷ rs)) t.rows)
        (clamped (decimal_from 0 cs) t.cols)
        t
        (feed_bytes t (opening ++ ((r ∷ rs) ++ (b';' ∷ (cs ++ (b'H' ∷ []))))))
feed-position t r rs cs v e all-r all-c small-r small-c =
    let (u0-rest, u0-state, u0-count, u0-zero) = feed_opening t e in
    let u0 = feed_bytes t opening in
    let first =
      feed_digits-HasRead rs u0 (parser_feed u0 r) 0 (0 * 10 + (r - b'0')) all-r.1 small-r
        (first_digit-HasRead u0 r u0-state u0-count u0-zero all-r.0) in
    let u1 = feed_bytes (parser_feed u0 r) rs in
    let u2 = with_parser u1 (csi_separator u1.parser) in
    let second =
      feed_digits-HasRead cs u1 u2 1 0 all-c small-c
        (separator-HasRead u1 1 first.state first.count (omega arith)) in
    let u3 = feed_bytes u2 cs in
    let u3-rest =
      rest_trans t u1 u3 _ _ (rest_trans t u0 u1 _ _ u0-rest first.rest)
        (rest_trans u1 u2 u3 _ _ refl second.rest) in
    let split =
      feed_pair t r rs cs
      ∙ ap (λ w. parser_feed (feed_bytes w cs) b'H') (feed_separator u1 first.state) in
    rw split (
      final-MovedTo_of_rest t u3 (decimal_from 0 (r ∷ rs)) (decimal_from 0 cs) v u3-rest
        second.state (ground (arith, second.count, second.others 0, first.value))
        (ground (arith, second.count, second.value)) small-r small-c)

-- On a valid terminal outside of an escape sequence, an empty first number is lost: `ESC [ ; n H`
-- moves to row `n` and column 1, where the sequence stands for row 1 and column `n`.
pub feed-position_empty :
    (t : Terminal) (cs : List ℕ)
    → IsValid t
    → t.parser.state ≡ ground_state
    → AllDigits cs
    → decimal_from 0 cs ≤ int_max
    → MovedTo
        (clamped (decimal_from 0 cs) t.rows)
        0
        t
        (feed_bytes t (opening ++ (b';' ∷ (cs ++ (b'H' ∷ [])))))
feed-position_empty t cs v e all-c small-c =
    let (u0-rest, u0-state, u0-count, u0-zero) = feed_opening t e in
    let u0 = feed_bytes t opening in
    let u1 = with_parser u0 (csi_separator u0.parser) in
    let only =
      feed_digits-HasRead cs u0 u1 0 0 all-c small-c
        (separator-HasRead u0 0 u0-state u0-count (omega arith)) in
    let u2 = feed_bytes u1 cs in
    let u2-rest = rest_trans t u0 u2 _ _ u0-rest only.rest in
    let split =
      feed_single t cs
      ∙ ap (λ w. parser_feed (feed_bytes w cs) b'H') (feed_separator u0 u0-state) in
    rw split (
      final-MovedTo_of_rest t u2 (decimal_from 0 cs) 0 v u2-rest only.state
        (ground (arith, only.count, only.value)) (ground (arith, only.count)) small-c (omega arith))
