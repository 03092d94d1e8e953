-- ===== src/Terminal/Keys/Bytes.antt =====
-- What key presses send (terminal/src/main.cpp): at most eight bytes, and modifiers as in xterm.
use i_user_apps.Common.{
  ℕ, ◌+◌, ◌≤◌, ◌≡◌, ◌≢◌, ◌⊎◌, arith, inl, inr, ◌||◌, if◌then◌else◌, some, List, [], ◌∷◌, length,
  Option-cases,
}
use i_user_apps.Terminal.Keys.{
  KeyCodes, KeyEvent, key_table, find_case, key_sequence, modifier_param, with_modifiers,
  translate_plain, translate_key,
}

-- The two forms of a sequence: `ESC [ X` or `ESC O X`, and `ESC [ number ~` of one or two digits.
abbrev pub IsSequence : List ℕ → Type 0
IsSequence s =
    ((b : ℕ) × (x : ℕ) × (x ≢ b'~') × (s ≡ 0x1b ∷ b ∷ x ∷ []))
    ⊎ (((d : ℕ) × (s ≡ 0x1b ∷ b'[' ∷ d ∷ b'~' ∷ []))
        ⊎ ((d : ℕ) × (d' : ℕ) × (s ≡ 0x1b ∷ b'[' ∷ d ∷ d' ∷ b'~' ∷ [])))

-- xterm's modifier parameter, and where it goes: before the final byte, behind the number of the
-- sequence or behind a 1, in a sequence that begins with `ESC [`.
abbrev pub xterm_param : KeyEvent → ℕ
xterm_param e =
    b'1' + ((if e.shift then 1 else 0) + ((if e.alt then 2 else 0) + (if e.ctrl then 4 else 0)))

abbrev pub xterm_form : ℕ → List ℕ → List ℕ
xterm_form p (e ∷ b ∷ x ∷ []) = e ∷ b'[' ∷ b'1' ∷ b';' ∷ p ∷ x ∷ []
xterm_form p (e ∷ b ∷ d ∷ x ∷ []) = e ∷ b'[' ∷ d ∷ b';' ∷ p ∷ x ∷ []
xterm_form p (e ∷ b ∷ d ∷ d' ∷ x ∷ []) = e ∷ b'[' ∷ d ∷ d' ∷ b';' ∷ p ∷ x ∷ []
xterm_form p s = s

with_modifiers-xterm :
    (s : List ℕ) (e : KeyEvent)
    → IsSequence s
    → with_modifiers s e ≡ (if e.shift || e.alt || e.ctrl then xterm_form (xterm_param e) s else s)
unfolding with_modifiers modifier_param
with_modifiers-xterm s e shape = ground arith

module _ (k : KeyCodes) where
  key_sequence-IsSequence : (code : ℕ) (s : List ℕ) → key_sequence k code ≡ some s → IsSequence s
  unfolding key_sequence find_case key_table
  key_sequence-IsSequence code s e = ground arith

  with_modifiers-length :
      (s : List ℕ) (e : KeyEvent) → IsSequence s → length (with_modifiers s e) ≤ 8
  unfolding with_modifiers
  with_modifiers-length s e shape = ground arith

  translate_plain-length : (e : KeyEvent) → length (translate_plain k e) ≤ 2
  unfolding translate_plain
  translate_plain-length e = ground arith

  -- No key press sends more than the eight bytes that the caller's buffer holds.
  pub translate_key-length : (e : KeyEvent) → length (translate_key k e) ≤ 8
  unfolding translate_key
  translate_key-length e = elim (Option-cases (key_sequence k e.key)) [
    | inl plain ↦ rw (plain, translate_key) (omega (arith, translate_plain-length e))
    | inr (s, found) ↦
        rw (found, translate_key)
          (with_modifiers-length s e (key_sequence-IsSequence e.key s found))
  ]

  -- A key with a sequence sends it as it is when no modifier is held, and in xterm's form when
  -- Shift, Alt or Ctrl is: with a parameter of 1 and 1 for Shift, 2 for Alt, 4 for Ctrl.
  pub translate_key-xterm :
      (e : KeyEvent) (s : List ℕ)
      → key_sequence k e.key ≡ some s
      → translate_key k e ≡ (if e.shift || e.alt || e.ctrl then xterm_form (xterm_param e) s else s)
  unfolding translate_key
  translate_key-xterm e s found =
      rw (found, translate_key) (with_modifiers-xterm s e (key_sequence-IsSequence e.key s found))
