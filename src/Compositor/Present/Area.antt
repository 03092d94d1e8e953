-- ===== src/Compositor/Present/Area.antt =====
-- Which pixels of the framebuffer the rows of graphics-compositor/src/presentation.cpp change.
use i_user_apps.Common.{
  ℕ, zero, suc, ◌+◌, ◌-◌, ◌*◌, ◌≤◌, ◌<◌, ◌≡◌, refl, sym, ap, ◌∙◌, subst, inl, inr, Bool, true,
  false, not, ◌&&◌, arith, ltb, leb, ◌==◌, if◌then◌else◌, ltb→lt, Bool-cases, u32_mod, add32,
}
use i_user_apps.Compositor.Pixels.{Words, rgb_mask}
use i_user_apps.Compositor.Pixels.Row.{present_texel_row-CopiedTo}
use i_user_apps.Compositor.Present.{
  Picture, index_of, copy_row_at, copy_rows_at, present_rect, lesser32,
}
use i_user_apps.Compositor.Window.{Rect, Geometry, clamp_rect}

rows_apart : (r y p : ℕ) → r < y → r * p + p ≤ y * p
rows_apart r zero p h = absurd (omega (arith, h))
rows_apart r (suc y) p h = elim (Bool-cases (r == y)) [
  | inl same ↦
      let e : r ≡ y = ground (arith, same) in
      subst (λ t. t * p + p ≤ suc y * p) (sym e) (omega arith)
  | inr other ↦ let less : r < y = ground (arith, other, h) in omega (arith, rows_apart r y p less)
]

-- A column of another row is not in the row.
abbrev pub in_row : ℕ → ℕ → ℕ → ℕ → ℕ → ℕ → Bool
in_row x count y r c rows = leb y r && ltb r (y + rows) && leb x c && ltb c (x + count)

copy_row_at_pixel :
    (src : Words) (s : ℕ) (dst : Words) (pitch x count y r c : ℕ)
    → x + count ≤ pitch
    → c < pitch
    → count + 4 < u32_mod
    → copy_row_at src s dst (y * pitch + x) count (r * pitch + c)
      ≡ (if in_row x count y r c 1 then rgb_mask (src (s + (c - x))) else dst (r * pitch + c))
unfolding copy_row_at
copy_row_at_pixel src s dst pitch x count y r c fits inside room =
    let d = y * pitch + x in
    let j = r * pitch + c in
    let copied =
      present_texel_row-CopiedTo (λ k. src (s + k)) (λ k. dst (d + k)) count (j - d) room in
    elim (Bool-cases (ltb r y)) [
      | inl above ↦
          let apart = rows_apart r y pitch (ltb→lt r y above) in
          let outside : in_row x count y r c 1 ≡ false = ground (arith, above) in
          let before : leb d j ≡ false = ground (arith, apart, inside) in rw (before, outside) refl
      | inr not_above ↦ elim (Bool-cases (ltb y r)) [
        | inl below ↦
            let apart = rows_apart y r pitch (ltb→lt y r below) in
            let outside : in_row x count y r c 1 ≡ false = ground (arith, below) in
            let after : leb d j ≡ true = ground (arith, apart, fits) in
            let past : ltb (j - d) count ≡ false = ground (arith, apart, fits) in
            let same : d + (j - d) ≡ j = omega (arith, apart, fits) in
            rw (after, outside) (copied ∙ rw past (ap dst same))
        | inr not_below ↦
            let same_row : r ≡ y = ground (arith, not_above, not_below) in
            let start : r * pitch ≡ y * pitch = ap (λ t. t * pitch) same_row in
            elim (Bool-cases (leb x c)) [
              | inr left ↦
                  let outside : in_row x count y r c 1 ≡ false = ground (arith, left) in
                  let before : leb d j ≡ false = ground (arith, start, left) in
                  rw (before, outside) refl
              | inl from ↦
                  let after : leb d j ≡ true = ground (arith, start, from) in
                  let column : j - d ≡ c - x = ground (arith, start, from) in
                  let same : d + (j - d) ≡ j = ground (arith, start, from) in
                  elim (Bool-cases (ltb (c - x) count)) [
                    | inl in_it ↦
                        let here : in_row x count y r c 1 ≡ true =
                          ground (arith, same_row, from, in_it) in
                        let hit : ltb (j - d) count ≡ true = ground (arith, column, in_it) in
                        rw (after, here) (copied ∙ rw hit (ap (λ k. rgb_mask (src (s + k))) column))
                    | inr right ↦
                        let outside : in_row x count y r c 1 ≡ false =
                          ground (arith, from, right) in
                        let past : ltb (j - d) count ≡ false = ground (arith, column, right) in
                        rw (after, outside) (copied ∙ rw past (ap dst same))
                  ]
            ]
      ]
    ]

index_of-eq :
    (pitch x y bottom : ℕ)
    → x ≤ pitch
    → y < bottom
    → bottom * pitch < u32_mod
    → index_of pitch x y ≡ y * pitch + x
index_of-eq pitch x y bottom fits above small =
    let apart = rows_apart y bottom pitch above in omega (arith, apart, fits, small)

pub copy_rows_at_pixel :
    (source : Picture) (pitch x count y rows bottom : ℕ) (dst : Words) (r c : ℕ)
    → y + rows ≡ bottom
    → bottom < u32_mod
    → bottom * pitch < u32_mod
    → bottom * source.pitch < u32_mod
    → x + count ≤ pitch
    → x + count ≤ source.pitch
    → count + 4 < u32_mod
    → c < pitch
    → copy_rows_at source pitch x count y rows dst (r * pitch + c) ≡ (
        if in_row x count y r c rows
        then rgb_mask (source.pixels (r * source.pitch + c))
        else dst (r * pitch + c))
unfolding copy_rows_at
copy_rows_at_pixel source pitch x count y zero bottom dst r c end low t_small s_small t_fits s_fits
      room inside =
    let none_shown : in_row x count y r c 0 ≡ false = ground arith in rw none_shown refl
copy_rows_at_pixel source pitch x count y (suc rows) bottom dst r c end low t_small s_small t_fits
      s_fits room inside =
    let s = index_of source.pitch x y in
    let d = index_of pitch x y in
    let target =
      index_of-eq pitch x y bottom (omega (arith, t_fits)) (omega (arith, end)) t_small in
    let from =
      index_of-eq source.pitch x y bottom (omega (arith, s_fits)) (omega (arith, end)) s_small in
    let next : add32 y 1 ≡ y + 1 = omega (arith, low, end) in
    let row = copy_row_at source.pixels s dst d count in
    let ih =
      copy_rows_at_pixel source pitch x count (y + 1) rows bottom row r c (omega (arith, end)) low
        t_small s_small t_fits s_fits room inside in
    let first =
      ap (λ t. copy_row_at source.pixels s dst t count (r * pitch + c)) target
      ∙ copy_row_at_pixel source.pixels s dst pitch x count y r c t_fits inside room in
    rw next (
      ih ∙ elim (Bool-cases (in_row x count (y + 1) r c rows)) [
        | inl later ↦
            let whole : in_row x count y r c (suc rows) ≡ true = ground (arith, later) in
            rw (later, whole) refl
        | inr not_later ↦ elim (Bool-cases (in_row x count y r c 1)) [
          | inl here ↦
              let whole : in_row x count y r c (suc rows) ≡ true = ground (arith, here) in
              let same_row : r ≡ y = ground (arith, here) in
              let start : r * source.pitch ≡ y * source.pitch =
                ap (λ t. t * source.pitch) same_row in
              let column : x ≤ c = ground (arith, here) in
              let at : s + (c - x) ≡ r * source.pitch + c = omega (arith, from, start, column) in
              rw (not_later, whole) (first ∙ rw here (ap (λ k. rgb_mask (source.pixels k)) at))
          | inr away ↦
              let whole : in_row x count y r c (suc rows) ≡ false =
                ground (arith, not_later, away) in
              rw (not_later, whole) (first ∙ rw away refl)
        ]
      ])

rows_le : (a b p : ℕ) → a ≤ b → a * p ≤ b * p
rows_le a b p h = elim (Bool-cases (a == b)) [
  | inl same ↦ let e : a ≡ b = ground (arith, same) in subst (λ t. a * p ≤ t * p) e (omega arith)
  | inr other ↦ let less : a < b = ground (arith, other, h) in omega (arith, rows_apart a b p less)
]

-- What `intersect` is used for: a part that is not empty lies in the second rectangle.
abbrev pub Clips : Geometry → Type 0
Clips g =
    (rect : Rect) (width height : ℕ)
    → g.is_empty (clamp_rect g rect width height) ≡ false
    → ((clamp_rect g rect width height).x + (clamp_rect g rect width height).width ≤ width)
      × ((clamp_rect g rect width height).y + (clamp_rect g rect width height).height ≤ height)

-- The rows of an array fit in it and its indices do not wrap around.
pub record FitsPitch (picture : Picture) : Type 0 where
  pub row : picture.width ≤ picture.pitch
  pub width_small : picture.width + 4 < u32_mod
  pub height_small : picture.height < u32_mod
  pub small : picture.height * picture.pitch < u32_mod

abbrev pub clipped_to : Geometry → Picture → Picture → Rect → Rect
clipped_to g source target rect =
    clamp_rect g rect (lesser32 source.width target.width) (lesser32 source.height target.height)

-- A part of the scene is shown on the screen in its place, without the alpha bytes and cut to the
-- size of both, and no other pixel of the framebuffer changes, if no index wraps around and clipping
-- stays inside the rectangle that it clips to.
pub present_rect-eq :
    (g : Geometry) (source target : Picture) (rect : Rect) (r c : ℕ)
    → Clips g
    → FitsPitch source
    → FitsPitch target
    → c < target.pitch
    → (present_rect g source target rect).0 (r * target.pitch + c) ≡ (
        if not (g.is_empty (clipped_to g source target rect))
          && in_row
              (clipped_to g source target rect).x
              (clipped_to g source target rect).width
              (clipped_to g source target rect).y
              r
              c
              (clipped_to g source target rect).height
        then rgb_mask (source.pixels (r * source.pitch + c))
        else target.pixels (r * target.pitch + c))
unfolding present_rect
present_rect-eq g source target rect r c clips s_fits t_fits inside =
    let clipped = clipped_to g source target rect in
    elim (Bool-cases (g.is_empty clipped)) [
      | inl empty ↦ rw empty refl
      | inr some_left ↦
          let (right, bottom) = clips rect _ _ some_left in
          let low_s : clipped.y + clipped.height ≤ source.height = ground (arith, bottom) in
          let low_t : clipped.y + clipped.height ≤ target.height = ground (arith, bottom) in
          let wide_s : clipped.x + clipped.width ≤ source.width = ground (arith, right) in
          let wide_t : clipped.x + clipped.width ≤ target.width = ground (arith, right) in
          rw some_left (
            copy_rows_at_pixel source target.pitch clipped.x clipped.width clipped.y clipped.height
              (clipped.y + clipped.height) target.pixels r c refl
              (omega (arith, low_s, s_fits.height_small))
              (omega (arith, rows_le _ _ target.pitch low_t, t_fits.small))
              (omega (arith, rows_le _ _ source.pitch low_s, s_fits.small))
              (omega (arith, wide_t, t_fits.row)) (omega (arith, wide_s, s_fits.row))
              (omega (arith, wide_s, s_fits.width_small)) inside)
    ]
