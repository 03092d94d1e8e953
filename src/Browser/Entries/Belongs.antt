-- ===== src/Browser/Entries/Belongs.antt =====
-- The order of the list in file-browser/src/main.cpp: folders before files, and names by their letters,
-- without their case.
use i_user_apps.Common.{ℕ, ◌≤◌, ◌<◌, ◌≡◌, ◌≢◌, true, false, List, [], ◌∷◌, arith, ◌==◌}
use i_user_apps.Browser.Text.{ascii_lower, is_directory, BrowserEntry}
use i_user_apps.Browser.Entries.{order_chars, compare_names, is_less, entry_before}
use i_user_apps.Browser.Entries.Order.{IsText, ascii_lower-byte}

-- The order of two values of a `char`, which is signed: the bytes from 128 on are negative.
pub data CharBefore (a b : ℕ) : Type 0 where
  both_positive : a < b → b < 128 → CharBefore a b
  both_negative : 128 ≤ a → a < b → CharBefore a b
  negative_first : 128 ≤ a → b < 128 → CharBefore a b

-- One name stands before another: at the first letter in which they differ, or where one of them ends,
-- its letter, or the NUL, is the lesser `char`.
pub data NameBefore : List ℕ → List ℕ → Type 0 where
  ends_first : (b : ℕ) (rhs : List ℕ) → CharBefore 0 (ascii_lower b) → NameBefore [] (b ∷ rhs)
  ends_last : (a : ℕ) (lhs : List ℕ) → CharBefore (ascii_lower a) 0 → NameBefore (a ∷ lhs) []
  lesser_letter :
      (a b : ℕ) (lhs rhs : List ℕ)
      → CharBefore (ascii_lower a) (ascii_lower b)
      → NameBefore (a ∷ lhs) (b ∷ rhs)
  same_letter :
      (a b : ℕ) (lhs rhs : List ℕ)
      → ascii_lower a ≡ ascii_lower b
      → NameBefore lhs rhs
      → NameBefore (a ∷ lhs) (b ∷ rhs)

pub data BelongsBefore (a b : BrowserEntry) : Type 0 where
  folder_first :
      is_directory a.dir.type ≡ true → is_directory b.dir.type ≡ false → BelongsBefore a b
  by_name :
      is_directory a.dir.type ≡ is_directory b.dir.type
      → NameBefore a.dir.name b.dir.name
      → BelongsBefore a b

order_chars-CharBefore :
    (a b : ℕ) → a < 256 → b < 256 → CharBefore a b → is_less (order_chars a b) ≡ true
unfolding order_chars
order_chars-CharBefore a b ha hb (both_positive less small) = ground (arith, less, small)
order_chars-CharBefore a b ha hb (both_negative large less) = ground (arith, large, less)
order_chars-CharBefore a b ha hb (negative_first large small) = ground (arith, large, small)

CharBefore-ne : (a b : ℕ) → CharBefore a b → a ≢ b
CharBefore-ne a b (both_positive less small) e = omega (arith, less, e)
CharBefore-ne a b (both_negative large less) e = omega (arith, less, e)
CharBefore-ne a b (negative_first large small) e = omega (arith, large, small, e)

compare_names-NameBefore :
    (a b : List ℕ) → IsText a → IsText b → NameBefore a b → is_less (compare_names a b) ≡ true
unfolding compare_names
compare_names-NameBefore _ _ ta tb (ends_first b rhs less) =
    order_chars-CharBefore 0 (ascii_lower b) (omega arith) (ascii_lower-byte b tb.0.0 tb.0.1).1 less
compare_names-NameBefore _ _ ta tb (ends_last a lhs less) =
    order_chars-CharBefore (ascii_lower a) 0 (ascii_lower-byte a ta.0.0 ta.0.1).1 (omega arith) less
compare_names-NameBefore _ _ ta tb (lesser_letter a b lhs rhs less) =
    let apart = CharBefore-ne (ascii_lower a) (ascii_lower b) less in
    let differ : (ascii_lower a == ascii_lower b) ≡ false = ground (arith, apart) in
    rw differ (
      order_chars-CharBefore (ascii_lower a) (ascii_lower b) (ascii_lower-byte a ta.0.0 ta.0.1).1
        (ascii_lower-byte b tb.0.0 tb.0.1).1 less)
compare_names-NameBefore _ _ ta tb (same_letter a b lhs rhs same rest) =
    ground (arith, same, compare_names-NameBefore lhs rhs ta.1 tb.1 rest)

pub entry_before-BelongsBefore :
    (a b : BrowserEntry)
    → IsText a.dir.name
    → IsText b.dir.name
    → entry_before a b ≡ false
    → ¬ BelongsBefore a b
unfolding entry_before
entry_before-BelongsBefore a b ta tb h (folder_first folder file) = ground (arith, h, folder, file)
entry_before-BelongsBefore a b ta tb h (by_name kind names) =
    ground (arith, h, kind, compare_names-NameBefore a.dir.name b.dir.name ta tb names)
