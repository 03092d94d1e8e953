-- ===== src/Terminal/Keys.antt =====
-- `key_sequence` and `translate_key` of terminal/src/main.cpp: the bytes that a key press sends.
pub mod Bytes
use i_user_apps.Common.{
  ℕ, ◌+◌, ◌-◌, ◌%◌, Bool, true, false, not, ◌&&◌, ◌||◌, leb, ◌==◌, if◌then◌else◌, Option, some,
  none, List, [], ◌∷◌, ◌++◌, length, get_or, set, take,
}

-- The key codes of the system library (`std::Key...`).
pub record KeyCodes : Type 0 where
  pub up : ℕ
  pub down : ℕ
  pub right : ℕ
  pub left : ℕ
  pub home : ℕ
  pub end : ℕ
  pub insert : ℕ
  pub delete : ℕ
  pub page_up : ℕ
  pub page_down : ℕ
  pub f1 : ℕ
  pub f2 : ℕ
  pub f3 : ℕ
  pub f4 : ℕ
  pub f5 : ℕ
  pub f6 : ℕ
  pub f7 : ℕ
  pub f8 : ℕ
  pub f9 : ℕ
  pub f10 : ℕ
  pub f11 : ℕ
  pub f12 : ℕ
  pub enter : ℕ
  pub keypad_enter : ℕ
  pub backspace : ℕ
  pub tab : ℕ
  pub escape : ℕ
  pub letter_a : ℕ
  pub letter_z : ℕ
  pub space : ℕ
  pub digit_2 : ℕ
  pub left_bracket : ℕ
  pub backslash : ℕ
  pub right_bracket : ℕ
  pub digit_6 : ℕ
  pub minus : ℕ
  pub slash : ℕ

-- What `translate_key` reads of a `ui::KeyEvent`.
pub record KeyEvent : Type 0 where
  pub key : ℕ
  pub text : ℕ
  pub shift : Bool
  pub ctrl : Bool
  pub alt : Bool

abbrev esc : ℕ
esc = 0x1b

unfoldable pub find_case : ℕ → List (ℕ × List ℕ) → Option (List ℕ)
find_case code [] = none
find_case code ((key, sequence) ∷ cases) =
    if code == key then some sequence else find_case code cases

-- `'1' + (shift ? 1 : 0) + (alt ? 2 : 0) + (ctrl ? 4 : 0)`.
unfoldable pub modifier_param : KeyEvent → ℕ
modifier_param e =
    b'1' + (if e.shift then 1 else 0) + (if e.alt then 2 else 0) + (if e.ctrl then 4 else 0)

-- The buffer `out` after a sequence was copied into it and its modifiers were put in.
unfoldable pub with_modifiers : List ℕ → KeyEvent → List ℕ
with_modifiers sequence e =
    let param = modifier_param e in
    let n = length sequence in
    let final = get_or sequence (n - 1) 0 in
    let kept : ℕ = if final == b'~' then n - 1 else 2 in
    let one : List ℕ = if final == b'~' then [] else b'1' ∷ [] in
    if param == b'1'
    then sequence
    else take kept (set sequence 1 b'[') ++ (one ++ (b';' ∷ param ∷ final ∷ []))

-- The text of the key, if it has one.
abbrev text_bytes : List ℕ → KeyEvent → List ℕ
text_bytes prefix e = if e.text == 0 then [] else prefix ++ (e.text ∷ [])

module _ (k : KeyCodes) where
  -- The cases of the switch.
  unfoldable pub key_table : List (ℕ × List ℕ)
  key_table =
      (k.up, esc ∷ b'[' ∷ b'A' ∷ [])
      ∷ (k.down, esc ∷ b'[' ∷ b'B' ∷ [])
      ∷ (k.right, esc ∷ b'[' ∷ b'C' ∷ [])
      ∷ (k.left, esc ∷ b'[' ∷ b'D' ∷ [])
      ∷ (k.home, esc ∷ b'[' ∷ b'H' ∷ [])
      ∷ (k.end, esc ∷ b'[' ∷ b'F' ∷ [])
      ∷ (k.insert, esc ∷ b'[' ∷ b'2' ∷ b'~' ∷ [])
      ∷ (k.delete, esc ∷ b'[' ∷ b'3' ∷ b'~' ∷ [])
      ∷ (k.page_up, esc ∷ b'[' ∷ b'5' ∷ b'~' ∷ [])
      ∷ (k.page_down, esc ∷ b'[' ∷ b'6' ∷ b'~' ∷ [])
      ∷ (k.f1, esc ∷ b'O' ∷ b'P' ∷ [])
      ∷ (k.f2, esc ∷ b'O' ∷ b'Q' ∷ [])
      ∷ (k.f3, esc ∷ b'O' ∷ b'R' ∷ [])
      ∷ (k.f4, esc ∷ b'O' ∷ b'S' ∷ [])
      ∷ (k.f5, esc ∷ b'[' ∷ b'1' ∷ b'5' ∷ b'~' ∷ [])
      ∷ (k.f6, esc ∷ b'[' ∷ b'1' ∷ b'7' ∷ b'~' ∷ [])
      ∷ (k.f7, esc ∷ b'[' ∷ b'1' ∷ b'8' ∷ b'~' ∷ [])
      ∷ (k.f8, esc ∷ b'[' ∷ b'1' ∷ b'9' ∷ b'~' ∷ [])
      ∷ (k.f9, esc ∷ b'[' ∷ b'2' ∷ b'0' ∷ b'~' ∷ [])
      ∷ (k.f10, esc ∷ b'[' ∷ b'2' ∷ b'1' ∷ b'~' ∷ [])
      ∷ (k.f11, esc ∷ b'[' ∷ b'2' ∷ b'3' ∷ b'~' ∷ [])
      ∷ (k.f12, esc ∷ b'[' ∷ b'2' ∷ b'4' ∷ b'~' ∷ [])
      ∷ []

  unfoldable pub key_sequence : ℕ → Option (List ℕ)
  key_sequence code = find_case code key_table

  -- The byte of a control key, where there is one.
  unfoldable pub control_byte : ℕ → Option ℕ
  control_byte code =
      if leb k.letter_a code && leb code k.letter_z
      then some ((code - k.letter_a + 1) % 256)
      else if code == k.space || code == k.digit_2
      then some 0x00
      else if code == k.left_bracket
      then some 0x1b
      else if code == k.backslash
      then some 0x1c
      else if code == k.right_bracket
      then some 0x1d
      else if code == k.digit_6
      then some 0x1e
      else if code == k.minus || code == k.slash
      then some 0x1f
      else none

  unfoldable pub plain_byte : ℕ → Option ℕ
  plain_byte code =
      if code == k.enter || code == k.keypad_enter
      then some 10
      else if code == k.backspace
      then some 0x7f
      else if code == k.tab
      then some 9
      else if code == k.escape
      then some 0x1b
      else none

  -- The keys that have no sequence, behind the ESC of Alt.
  unfoldable pub translate_plain : KeyEvent → List ℕ
  translate_plain e =
      let prefix : List ℕ = if e.alt then esc ∷ [] else [] in
      elim (plain_byte e.key) [
        | some byte ↦ prefix ++ (byte ∷ [])
        | none ↦ elim (if e.ctrl then control_byte e.key else none) [
          | some byte ↦ prefix ++ (byte ∷ [])
          | none ↦ text_bytes prefix e
        ]
      ]

  -- The bytes that are written to `out`; the source returns their number.
  unfoldable pub translate_key : KeyEvent → List ℕ
  translate_key e = elim (key_sequence e.key) [
    | some sequence ↦ with_modifiers sequence e
    | none ↦ translate_plain e
  ]
