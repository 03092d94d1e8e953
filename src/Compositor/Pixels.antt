-- ===== src/Compositor/Pixels.antt =====
-- `present_texel_row_to_framebuffer` of graphics-compositor/src/render_primitives.cpp. An array is a
-- function from its indices; the four lanes of a vector are stored at once.
pub mod Row
use i_user_apps.Common.{ℕ, zero, suc, ◌+◌, ◌%◌, ◌^◌, ◌&&◌, ltb, leb, ◌==◌, if◌then◌else◌, add32}

abbrev pub Words : Type 0
Words = ℕ → ℕ

-- `word & 0x00FFFFFF`.
abbrev pub rgb_mask : ℕ → ℕ
rgb_mask word = word % 2 ^ 24

unfoldable pub store_quad : Words → ℕ → Words → Words
store_quad src index dst = λ j. if leb index j && ltb j (index + 4) then rgb_mask (src j) else dst j

unfoldable pub store_one : Words → ℕ → Words → Words
store_one src index dst = λ j. if j == index then rgb_mask (src j) else dst j

-- The loop over four pixels at a time, and the index that it leaves.
unfoldable pub quad_loop : Words → ℕ → ℕ → ℕ → Words → ℕ × Words
quad_loop src count zero index dst = (index, dst)
quad_loop src count (suc fuel) index dst =
    let rest = quad_loop src count fuel (add32 index 4) (store_quad src index dst) in
    if leb (add32 index 4) count then rest else (index, dst)

-- The loop over the pixels that are left.
unfoldable pub tail_loop : Words → ℕ → ℕ → ℕ → Words → Words
tail_loop src count zero index dst = dst
tail_loop src count (suc fuel) index dst =
    let rest = tail_loop src count fuel (add32 index 1) (store_one src index dst) in
    if ltb index count then rest else dst

-- As many rounds as there are pixels are enough for both loops.
unfoldable pub present_texel_row : Words → Words → ℕ → Words
present_texel_row src dst count =
    let (index, dst') = quad_loop src count count 0 dst in tail_loop src count count index dst'
