-- ===== src/FontManager/Rows.antt =====
-- The rows of glyphs that font-manager/src/main.cpp sends.
use i_user_apps.Common.{
  ℕ, zero, suc, ◌+◌, ◌*◌, ◌%◌, ◌^◌, ◌≤◌, ◌<◌, ◌≡◌, refl, ap, ◌∙◌, inl, inr, ◌||◌, List, [], ◌∷◌,
  arith, true, ltb, leb, Bool-cases, length, get_elem?, take, drop, u32_mod,
}
use native.Mathlib.Nat.{mul-le-mul_left}
use i_user_apps.FontManager.Protocol.{Protocol, Request, Bitmap}
use i_user_apps.FontManager.Replies.{Body, row_body, Row, row_of_bitmap}

-- Why a row is not sent: the bitmap has no such row, a row of it has more pixels than a reply has room
-- for, or its size is negative, as an `int`.
pub data Unsendable (protocol : Protocol) (request : Request) (bitmap : Bitmap) : Type 0 where
  no_such_row : bitmap.height ≤ request.row → Unsendable protocol request bitmap
  too_wide : protocol.max_glyph_row_pixels < bitmap.width → Unsendable protocol request bitmap
  negative_width : 2 ^ 31 ≤ bitmap.width → Unsendable protocol request bitmap
  negative_height : 2 ^ 31 ≤ bitmap.height → Unsendable protocol request bitmap

-- The answer to a request for a row of a bitmap, in the pixel height that the font was scaled to: an
-- empty row if it cannot be sent, and only then, or the bitmap's row.
pub data Answers (protocol : Protocol) (request : Request) (pixel_height : ℕ) (bitmap : Bitmap)
    : ℕ × Body → Type 0 where
  refused :
      Unsendable protocol request bitmap
      → Answers protocol request pixel_height bitmap (
        protocol.status_bad_payload,
        row_body (record { row_pixel_height = pixel_height; width = 0; pixels = [] }),
      )
  answered :
      (row : Row)
      → ¬ Unsendable protocol request bitmap
      → row.row_pixel_height ≡ pixel_height
      → row.width ≡ bitmap.width
      → length row.pixels ≡ bitmap.width
      → ((i : ℕ)
          → i < bitmap.width
          → get_elem? row.pixels i ≡ get_elem? bitmap.pixels (request.row * bitmap.width + i))
      → Answers protocol request pixel_height bitmap (protocol.status_ok, row_body row)

get_elem?-drop : (n i : ℕ) (xs : List ℕ) → get_elem? (drop n xs) i ≡ get_elem? xs (n + i)
get_elem?-drop zero i xs = ap (get_elem? xs) (omega arith)
get_elem?-drop (suc n) i [] = refl
get_elem?-drop (suc n) i (x ∷ xs) =
    let e : suc n + i ≡ suc (n + i) = omega arith in rw e (get_elem?-drop n i xs)

get_elem?-take : (n i : ℕ) (xs : List ℕ) → i < n → get_elem? (take n xs) i ≡ get_elem? xs i
get_elem?-take zero i xs h = absurd (omega (arith, h))
get_elem?-take (suc n) i [] h = refl
get_elem?-take (suc n) zero (x ∷ xs) h = refl
get_elem?-take (suc n) (suc i) (x ∷ xs) h = get_elem?-take n i xs (omega (arith, h))

length-take-drop : (m n : ℕ) (xs : List ℕ) → m + n ≤ length xs → length (take n (drop m xs)) ≡ n
length-take-drop zero zero xs h = refl
length-take-drop zero (suc n) [] h = absurd (omega (arith, h))
length-take-drop zero (suc n) (x ∷ xs) h = ap suc (length-take-drop zero n xs (omega (arith, h)))
length-take-drop (suc m) zero [] h = refl
length-take-drop (suc m) (suc n) [] h = absurd (omega (arith, h))
length-take-drop (suc m) n (x ∷ xs) h = length-take-drop m n xs (omega (arith, h))

-- A row below the height ends inside of the bitmap.
row_inside : (row height width : ℕ) → row < height → row * width + width ≤ width * height
row_inside row height width h =
    let below : suc row ≤ height = h in omega (arith, mul-le-mul_left width below)

mod_small : (n : ℕ) → n < u32_mod → n % u32_mod ≡ n
mod_small n h = omega (arith, h)

-- Where the test of the source holds, the row cannot be sent.
refused-Unsendable :
    (protocol : Protocol) (request : Request) (bitmap : Bitmap)
    → (leb (2 ^ 31) bitmap.width
        || leb (2 ^ 31) bitmap.height
        || ltb protocol.max_glyph_row_pixels bitmap.width
        || leb bitmap.height request.row)
      ≡ true
    → Unsendable protocol request bitmap
refused-Unsendable protocol request bitmap e = elim (Bool-cases (leb (2 ^ 31) bitmap.width)) [
  | inl wide ↦ negative_width (ground (arith, wide))
  | inr narrow ↦ elim (Bool-cases (leb (2 ^ 31) bitmap.height)) [
    | inl high ↦ negative_height (ground (arith, high))
    | inr low ↦ elim (Bool-cases (ltb protocol.max_glyph_row_pixels bitmap.width)) [
      | inl long ↦ too_wide (ground (arith, long))
      | inr short ↦ no_such_row (ground (arith, e, narrow, low, short))
    ]
  ]
]

-- A bitmap with as many pixels as its size says, whose number fits in 32 bits: the reply to a request
-- for a row below its height, in a bitmap whose size is not negative as an `int` and no wider than a
-- reply has room for, holds exactly that row, pixel by pixel; any other request is refused, with an
-- empty row.
pub row_of_bitmap-Answers :
    (protocol : Protocol) (request : Request) (pixel_height : ℕ) (bitmap : Bitmap)
    → length bitmap.pixels ≡ bitmap.width * bitmap.height
    → bitmap.width * bitmap.height < u32_mod
    → Answers protocol request pixel_height bitmap
        (row_of_bitmap protocol request pixel_height bitmap)
unfolding row_of_bitmap
row_of_bitmap-Answers protocol request pixel_height bitmap whole small =
    elim (Bool-cases (
      leb (2 ^ 31) bitmap.width
      || leb (2 ^ 31) bitmap.height
      || ltb protocol.max_glyph_row_pixels bitmap.width
      || leb bitmap.height request.row)) [
        | inl refuse ↦ rw refuse (refused (refused-Unsendable protocol request bitmap refuse))
        | inr fine ↦
            let below : request.row < bitmap.height = ground (arith, fine) in
            let few : bitmap.width ≤ protocol.max_glyph_row_pixels = ground (arith, fine) in
            let narrow : bitmap.width < 2 ^ 31 = ground (arith, fine) in
            let low : bitmap.height < 2 ^ 31 = ground (arith, fine) in
            let inside = row_inside request.row bitmap.height bitmap.width below in
            let place : request.row * bitmap.width % u32_mod ≡ request.row * bitmap.width =
              mod_small (request.row * bitmap.width) (omega (arith, inside, small)) in
            let start = request.row * bitmap.width in
            rw (fine, place)
              (answered
                (record {
                  row_pixel_height = pixel_height;
                  width = bitmap.width;
                  pixels = take bitmap.width (drop start bitmap.pixels);
                })
                (sendable below few narrow low) refl refl
                (length-take-drop start bitmap.width bitmap.pixels (omega (arith, inside, whole)))
                (λ i h.
                  get_elem?-take bitmap.width i (drop start bitmap.pixels) h
                  ∙ get_elem?-drop start i bitmap.pixels))
      ]
  where
    sendable :
        request.row < bitmap.height
        → bitmap.width ≤ protocol.max_glyph_row_pixels
        → bitmap.width < 2 ^ 31
        → bitmap.height < 2 ^ 31
        → ¬ Unsendable protocol request bitmap
    sendable below few narrow low (no_such_row h) = omega (arith, below, h)
    sendable below few narrow low (too_wide h) = omega (arith, few, h)
    sendable below few narrow low (negative_width h) = omega (arith, narrow, h)
    sendable below few narrow low (negative_height h) = omega (arith, low, h)
