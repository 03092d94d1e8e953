-- ===== src/Compositor/Present.antt =====
-- `present_rect_to_framebuffer` of graphics-compositor/src/presentation.cpp and
-- `present_to_framebuffer` of graphics-compositor/src/buffers.cpp: what of the scene is copied to the
-- screen. A pointer into an array is the array and an index.
pub mod Area
use i_user_apps.Common.{
  ℕ, zero, suc, ◌+◌, ◌-◌, ◌*◌, Option, none, some, ltb, leb, if◌then◌else◌, add32, mul32,
}
use i_user_apps.Compositor.Window.{Rect, Geometry, clamp_rect}
use i_user_apps.Compositor.Pixels.{Words, present_texel_row}

-- The scene's canvas, and the view of the framebuffer.
pub record Picture : Type 0 where
  pub pixels : Words
  pub width : ℕ
  pub height : ℕ
  pub pitch : ℕ

-- `&pixels[y * pitch + x]`, where the index wraps around.
abbrev pub index_of : ℕ → ℕ → ℕ → ℕ
index_of pitch x y = add32 (mul32 y pitch) x

-- The row copy from one index of the source to another of the target.
unfoldable pub copy_row_at : Words → ℕ → Words → ℕ → ℕ → Words
copy_row_at src s dst d count = λ j.
    if leb d j then present_texel_row (λ k. src (s + k)) (λ k. dst (d + k)) count (j - d) else dst j

-- The rows from `y` on.
unfoldable pub copy_rows_at : Picture → ℕ → ℕ → ℕ → ℕ → ℕ → Words → Words
copy_rows_at source pitch x count y zero dst = dst
copy_rows_at source pitch x count y (suc rows) dst =
    copy_rows_at source pitch x count (add32 y 1) rows
      (copy_row_at source.pixels (index_of source.pitch x y) dst (index_of pitch x y) count)

abbrev pub lesser32 : ℕ → ℕ → ℕ
lesser32 a b = if ltb a b then a else b

-- The pixels of the framebuffer, and the area that is flushed.
unfoldable pub present_rect : Geometry → Picture → Picture → Rect → Words × Option Rect
present_rect g source target rect =
    let clipped =
      clamp_rect g rect (lesser32 source.width target.width)
        (lesser32 source.height target.height) in
    if g.is_empty clipped then (target.pixels, none) else (
      copy_rows_at source target.pitch clipped.x clipped.width clipped.y clipped.height
          target.pixels,
      some clipped,
    )

unfoldable pub present_to_framebuffer : Picture → Picture → Words × Rect
present_to_framebuffer source target =
    let width = lesser32 source.width target.width in
    let height = lesser32 source.height target.height in
    (
      copy_rows_at source target.pitch 0 width 0 height target.pixels,
      record { x = 0; y = 0; width = width; height = height },
    )
