-- ===== src/Browser/Entries/Order.antt =====
-- `entry_before` of file-browser/src/main.cpp is a strict weak order.
use i_user_apps.Common.{ℕ, ◌<◌, ◌≡◌, refl, true, false, List, [], ◌∷◌, arith, All}
use i_user_apps.Browser.Text.{ascii_lower, BrowserEntry}
use i_user_apps.Browser.Entries.{order_chars, compare_names, is_less, entry_before}

compare_names-asymm :
    (a b : List ℕ) → is_less (compare_names a b) ≡ true → is_less (compare_names b a) ≡ false
unfolding compare_names order_chars
compare_names-asymm [] [] h = refl
compare_names-asymm [] (y ∷ b) h = ground arith
compare_names-asymm (x ∷ a) [] h = ground arith
compare_names-asymm (x ∷ a) (y ∷ b) h = ground (arith, compare_names-asymm a b)

pub entry_before-asymm : (a b : BrowserEntry) → entry_before a b ≡ true → entry_before b a ≡ false
unfolding entry_before
entry_before-asymm a b h = ground (arith, compare_names-asymm a.dir.name b.dir.name)

-- The bytes of a text, none of which is a NUL.
abbrev pub IsText : List ℕ → Type 0
IsText name = All (λ c. (0 < c) × (c < 256)) name

pub ascii_lower-byte : (c : ℕ) → 0 < c → c < 256 → (0 < ascii_lower c) × (ascii_lower c < 256)
unfolding ascii_lower
ascii_lower-byte c lo hi = ground arith

compare_names-neg_trans :
    (a b c : List ℕ)
    → IsText a
    → IsText b
    → IsText c
    → is_less (compare_names a b) ≡ false
    → is_less (compare_names b c) ≡ false
    → is_less (compare_names a c) ≡ false
unfolding compare_names order_chars
compare_names-neg_trans [] [] c ta tb tc h k = k
compare_names-neg_trans [] (y ∷ b) [] ta tb tc h k = refl
compare_names-neg_trans [] (y ∷ b) (z ∷ c) ta tb tc h k =
    let yb = ascii_lower-byte y tb.0.0 tb.0.1 in
    let zb = ascii_lower-byte z tc.0.0 tc.0.1 in ground (arith, yb, zb)
compare_names-neg_trans (x ∷ a) [] [] ta tb tc h k = h
compare_names-neg_trans (x ∷ a) [] (z ∷ c) ta tb tc h k =
    let xb = ascii_lower-byte x ta.0.0 ta.0.1 in
    let zb = ascii_lower-byte z tc.0.0 tc.0.1 in ground (arith, xb, zb)
compare_names-neg_trans (x ∷ a) (y ∷ b) [] ta tb tc h k =
    let xb = ascii_lower-byte x ta.0.0 ta.0.1 in
    let yb = ascii_lower-byte y tb.0.0 tb.0.1 in ground (arith, xb, yb)
compare_names-neg_trans (x ∷ a) (y ∷ b) (z ∷ c) ta tb tc h k =
    let xb = ascii_lower-byte x ta.0.0 ta.0.1 in
    let yb = ascii_lower-byte y tb.0.0 tb.0.1 in
    let zb = ascii_lower-byte z tc.0.0 tc.0.1 in
    ground (arith, xb, yb, zb, compare_names-neg_trans a b c ta.1 tb.1 tc.1)

pub entry_before-neg_trans :
    (a b c : BrowserEntry)
    → IsText a.dir.name
    → IsText b.dir.name
    → IsText c.dir.name
    → entry_before a b ≡ false
    → entry_before b c ≡ false
    → entry_before a c ≡ false
unfolding entry_before
entry_before-neg_trans a b c ta tb tc h k =
    ground (arith, compare_names-neg_trans a.dir.name b.dir.name c.dir.name ta tb tc)
