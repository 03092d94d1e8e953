-- ===== src/Terminal/Parser/Feed.antt =====
-- Feeding bytes to the terminal of terminal/src/main.cpp: safety, and repainting what changed.
use i_user_apps.Common.{
  ℕ, zero, suc, ◌+◌, ◌-◌, ◌*◌, ◌≤◌, ◌≡◌, refl, inl, inr, arith, ltb, ◌==◌, if◌then◌else◌,
  Bool-cases, int_max, List, [], ◌∷◌, true, false,
}
use i_user_apps.Common.Decimal.{is_digit}
use i_user_apps.Terminal.State.{Terminal, VtParser, ParserState, ground_state, escape, csi}
use i_user_apps.Terminal.Invariant.{IsValid, Covers, ParamsFit}
use i_user_apps.Terminal.Screen.{newline, put_char, space}
use i_user_apps.Terminal.Screen.Valid.{
  newline-IsValid, put_char-IsValid, newline-parser, put_char-parser,
}
use i_user_apps.Terminal.Screen.Covers.{Covers-trans, Covers-of_eq, newline-Covers, put_char-Covers}
use i_user_apps.Terminal.Csi.{handle_csi}
use i_user_apps.Terminal.Csi.Valid.{Keeps, Keeps-refl, Keeps-trans, handle_csi-Keeps}
use i_user_apps.Terminal.Parser.{
  with_parser, with_state, tab_loop, tab_fuel, next_tab_stop, feed_ground, feed_escape, feed_csi,
  csi_digit, csi_separator, parser_feed, feed_bytes, feed_in,
}

-- The number that the next digit extends.
abbrev pub last_param : VtParser → ℕ
last_param p = p.params ((if p.param_count == 0 then 1 else p.param_count) - 1)

-- The byte, if it is a digit of a control sequence, does not push its parameter past `INT_MAX`.
abbrev pub NoOverflow : Terminal → ℕ → Type 0
NoOverflow t ch =
    t.parser.state ≡ csi → is_digit ch ≡ true → last_param t.parser * 10 + (ch - b'0') ≤ int_max

abbrev pub NoOverflows : Terminal → List ℕ → Type 0
NoOverflows t [] = Unit {0}
NoOverflows t (ch ∷ bytes) = NoOverflow t ch × NoOverflows (parser_feed t ch) bytes

-- What one byte keeps.
pub record Fed (t u : Terminal) : Type 0 where
  pub valid : IsValid u
  pub covers : Covers t u
  pub fit : ParamsFit u

tab_loop-Keeps : (fuel next : ℕ) (t : Terminal) → IsValid t → Keeps t (tab_loop fuel next t)
unfolding tab_loop
tab_loop-Keeps zero next t v = Keeps-refl t v
tab_loop-Keeps (suc fuel) next t v =
    let written : Keeps t (put_char t space) = record {
      valid = put_char-IsValid t space v;
      covers = put_char-Covers t space v;
      parser = put_char-parser t space;
    } in
    let rest = Keeps-trans written (tab_loop-Keeps fuel next (put_char t space) written.valid) in
    ground (arith, rest, Keeps-refl t v)

Fed-of_Keeps : {t u : Terminal} → ParamsFit t → Keeps t u → Fed t u
Fed-of_Keeps fit k = record { valid = k.valid; covers = k.covers; fit = λ i. rw k.parser (fit i) }

-- A change of the parser alone.
Fed-of_parser :
    (t : Terminal) (p : VtParser)
    → IsValid t
    → p.param_count ≤ 8
    → ((i : ℕ) → p.params i ≤ int_max)
    → Fed t (with_parser t p)
Fed-of_parser t p v c fit = record {
  valid = ground arith;
  covers = Covers-of_eq refl refl refl refl refl;
  fit = fit;
}

feed_ground-Fed : (t : Terminal) (ch : ℕ) → ParamsFit t → IsValid t → Fed t (feed_ground t ch)
unfolding feed_ground
feed_ground-Fed t ch fit v =
    let keep : (u : Terminal) → Keeps t u → Fed t u = λ u. Fed-of_Keeps fit in
    ground (
      arith,
      Fed-of_parser t (record (t.parser) { state = escape }) v v.count fit,
      keep (newline t) (record {
        valid = newline-IsValid t v;
        covers = newline-Covers t v;
        parser = newline-parser t;
      }),
      keep (put_char t ch) (record {
        valid = put_char-IsValid t ch v;
        covers = put_char-Covers t ch v;
        parser = put_char-parser t ch;
      }),
      keep (tab_loop tab_fuel (next_tab_stop t.cursor_col) t)
          (tab_loop-Keeps tab_fuel (next_tab_stop t.cursor_col) t v),
      keep (record t { cursor_col = 0 })
          (record {
            valid = ground arith;
            covers = Covers-of_eq refl refl refl refl refl;
            parser = refl;
          }),
      keep (record t { cursor_col = t.cursor_col - 1 })
          (record {
            valid = ground arith;
            covers = Covers-of_eq refl refl refl refl refl;
            parser = refl;
          }),
      keep t (Keeps-refl t v),
    )

feed_escape-Fed : (t : Terminal) (ch : ℕ) → ParamsFit t → IsValid t → Fed t (feed_escape t ch)
unfolding feed_escape
feed_escape-Fed t ch fit v = elim (Bool-cases (ch == b'[')) [
  | inl e ↦ rw e (
      Fed-of_parser t
        (record {
          state = csi;
          params = λ i. if ltb i 8 then 0 else t.parser.params i;
          param_count = 0;
          param_started = false;
        })
        v (omega arith) (λ i. ground (arith, fit i)))
  | inr e ↦ rw e (Fed-of_parser t (record (t.parser) { state = ground_state }) v v.count fit)
]

csi_digit-fit :
    (p : VtParser) (ch i : ℕ)
    → ((j : ℕ) → p.params j ≤ int_max)
    → is_digit ch ≡ true
    → last_param p * 10 + (ch - b'0') ≤ int_max
    → (csi_digit p ch).params i ≤ int_max
unfolding csi_digit
csi_digit-fit p ch i fit digit small = ground (arith, fit i)

csi_separator-fit :
    (p : VtParser) (i : ℕ) → ((j : ℕ) → p.params j ≤ int_max) → (csi_separator p).params i ≤ int_max
unfolding csi_separator
csi_separator-fit p i fit = ground (arith, fit i)

csi_digit-count : (p : VtParser) (ch : ℕ) → p.param_count ≤ 8 → (csi_digit p ch).param_count ≤ 8
unfolding csi_digit
csi_digit-count p ch h = ground arith

csi_separator-count : (p : VtParser) → p.param_count ≤ 8 → (csi_separator p).param_count ≤ 8
unfolding csi_separator
csi_separator-count p h = ground arith

to_ground-Fed : (t u : Terminal) → Fed t u → Fed t (with_state u ground_state)
to_ground-Fed t u f =
    let last =
      Fed-of_parser u (record (u.parser) { state = ground_state }) f.valid f.valid.count f.fit in
    record { valid = last.valid; covers = Covers-trans f.covers last.covers; fit = last.fit }

feed_csi-Fed :
    (t : Terminal) (ch : ℕ)
    → (is_digit ch ≡ true → last_param t.parser * 10 + (ch - b'0') ≤ int_max)
    → ParamsFit t
    → IsValid t
    → Fed t (feed_csi t ch)
unfolding feed_csi
feed_csi-Fed t ch small fit v = elim (Bool-cases (is_digit ch)) [
  | inl digit ↦ rw digit (
      Fed-of_parser t (csi_digit t.parser ch) v (csi_digit-count t.parser ch v.count)
        (λ i. csi_digit-fit t.parser ch i fit digit (small digit)))
  | inr other ↦ rw other (
      ground (
        arith,
        Fed-of_parser t (csi_separator t.parser) v (csi_separator-count t.parser v.count)
            (λ i. csi_separator-fit t.parser i fit),
        Fed-of_Keeps fit (Keeps-refl t v),
        to_ground-Fed t (handle_csi t ch) (Fed-of_Keeps fit (handle_csi-Keeps t ch fit v)),
        to_ground-Fed t t (Fed-of_Keeps fit (Keeps-refl t v)),
      ))
]

feed_in-Fed :
    (s : ParserState) (t : Terminal) (ch : ℕ)
    → (s ≡ csi → is_digit ch ≡ true → last_param t.parser * 10 + (ch - b'0') ≤ int_max)
    → ParamsFit t
    → IsValid t
    → Fed t (feed_in s t ch)
unfolding feed_in
feed_in-Fed ground_state t ch small fit v = feed_ground-Fed t ch fit v
feed_in-Fed escape t ch small fit v = feed_escape-Fed t ch fit v
feed_in-Fed csi t ch small fit v = feed_csi-Fed t ch (small refl) fit v

pub parser_feed-Fed :
    (t : Terminal) (ch : ℕ) → NoOverflow t ch → ParamsFit t → IsValid t → Fed t (parser_feed t ch)
unfolding parser_feed
parser_feed-Fed t ch = feed_in-Fed t.parser.state t ch

pub feed_bytes-Fed :
    (t : Terminal) (bytes : List ℕ)
    → NoOverflows t bytes
    → ParamsFit t
    → IsValid t
    → Fed t (feed_bytes t bytes)
unfolding feed_bytes
feed_bytes-Fed t [] small fit v = Fed-of_Keeps fit (Keeps-refl t v)
feed_bytes-Fed t (ch ∷ bytes) small fit v =
    let first = parser_feed-Fed t ch small.0 fit v in
    let rest = feed_bytes-Fed (parser_feed t ch) bytes small.1 first.fit first.valid in
    record { valid = rest.valid; covers = Covers-trans first.covers rest.covers; fit = rest.fit }

-- A valid terminal whose parameters fit their array stays valid whatever bytes it is fed, as long
-- as no parameter overflows its `int`: the cursor is on the screen and no index leaves an array.
pub feed_bytes-IsValid :
    (t : Terminal) (bytes : List ℕ)
    → NoOverflows t bytes
    → ParamsFit t
    → IsValid t
    → IsValid (feed_bytes t bytes)
feed_bytes-IsValid t bytes small fit v = (feed_bytes-Fed t bytes small fit v).valid

-- When a valid terminal whose parameters fit their array is fed bytes and no parameter overflows
-- its `int`, no repaint is missed: the size is the same, a row that was dirty is dirty, and every
-- cell of a row that is not dirty afterwards holds what it held before.
pub feed_bytes-Covers :
    (t : Terminal) (bytes : List ℕ)
    → NoOverflows t bytes
    → ParamsFit t
    → IsValid t
    → Covers t (feed_bytes t bytes)
feed_bytes-Covers t bytes small fit v = (feed_bytes-Fed t bytes small fit v).covers
