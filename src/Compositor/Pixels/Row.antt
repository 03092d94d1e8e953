-- ===== src/Compositor/Pixels/Row.antt =====
-- The row copy of graphics-compositor/src/render_primitives.cpp, by fours and by ones, against a
-- copy of each pixel.
use i_user_apps.Common.{
  ℕ, zero, suc, ◌+◌, ◌-◌, ◌≤◌, ◌<◌, ◌≡◌, subst, inl, inr, arith, ltb, leb, if◌then◌else◌,
  Bool-cases, u32_mod, add32,
}
use i_user_apps.Compositor.Pixels.{
  Words, rgb_mask, store_quad, store_one, quad_loop, tail_loop, present_texel_row,
}

-- The pixels before `index` are copied and all others are as they were.
abbrev pub CopiedTo : Words → Words → ℕ → Words → Type 0
CopiedTo src old index dst = (j : ℕ) → dst j ≡ (if ltb j index then rgb_mask (src j) else old j)

store_quad-CopiedTo :
    (src old dst : Words) (index : ℕ)
    → CopiedTo src old index dst
    → CopiedTo src old (index + 4) (store_quad src index dst)
unfolding store_quad
store_quad-CopiedTo src old dst index h j = ground (arith, h j)

store_one-CopiedTo :
    (src old dst : Words) (index : ℕ)
    → CopiedTo src old index dst
    → CopiedTo src old (index + 1) (store_one src index dst)
unfolding store_one
store_one-CopiedTo src old dst index h j = ground (arith, h j)

quad_loop-CopiedTo :
    (src old : Words) (count fuel index : ℕ) (dst : Words)
    → count + 4 < u32_mod
    → index ≤ count
    → CopiedTo src old index dst
    → ((quad_loop src count fuel index dst).0 ≤ count)
      × CopiedTo src old
          (quad_loop src count fuel index dst).0
          (quad_loop src count fuel index dst).1
unfolding quad_loop
quad_loop-CopiedTo src old count zero index dst room hi h = (hi, h)
quad_loop-CopiedTo src old count (suc fuel) index dst room hi h =
    elim (Bool-cases (leb (add32 index 4) count)) [
      | inl more ↦
          let moved : add32 index 4 ≡ index + 4 = ground arith in
          let next : index + 4 ≤ count = ground arith in
          let ih =
            quad_loop-CopiedTo src old count fuel (index + 4) (store_quad src index dst) room next
              (store_quad-CopiedTo src old dst index h) in
          rw (more, moved) ih
      | inr done ↦ rw done (hi, h)
    ]

tail_loop-CopiedTo :
    (src old : Words) (count fuel index : ℕ) (dst : Words)
    → count + 4 < u32_mod
    → index ≤ count
    → count - index ≤ fuel
    → CopiedTo src old index dst
    → CopiedTo src old count (tail_loop src count fuel index dst)
unfolding tail_loop
tail_loop-CopiedTo src old count zero index dst room hi enough h =
    subst (λ t. CopiedTo src old t dst) (omega (arith, hi, enough)) h
tail_loop-CopiedTo src old count (suc fuel) index dst room hi enough h =
    elim (Bool-cases (ltb index count)) [
      | inl more ↦
          let moved : add32 index 1 ≡ index + 1 = ground arith in
          let next : index + 1 ≤ count = ground arith in
          let ih =
            tail_loop-CopiedTo src old count fuel (index + 1) (store_one src index dst) room next
              (omega (arith, enough)) (store_one-CopiedTo src old dst index h) in
          rw (more, moved) ih
      | inr done ↦
          let last : index ≡ count = ground arith in
          rw done (subst (λ t. CopiedTo src old t dst) last h)
    ]

-- A row of `count` pixels, a number at which an index of 32 bits does not wrap around, is copied
-- without its alpha bytes, and nothing behind it is written.
pub present_texel_row-CopiedTo :
    (src dst : Words) (count j : ℕ)
    → count + 4 < u32_mod
    → present_texel_row src dst count j ≡ (if ltb j count then rgb_mask (src j) else dst j)
unfolding present_texel_row
present_texel_row-CopiedTo src dst count j room =
    let start : CopiedTo src dst 0 dst = λ i. ground arith in
    let quads = quad_loop-CopiedTo src dst count count 0 dst room (omega arith) start in
    tail_loop-CopiedTo src dst count count _ _ room quads.0 (omega arith) quads.1 j
