-- ===== src/Compositor/Texts/Suffix.antt =====
-- `has_png_suffix` of graphics-compositor/src/render_primitives.cpp finds the suffix of every name.
use i_user_apps.Common.{
  ℕ, ◌-◌, ◌≡◌, refl, ap, ◌∙◌, false, List, [], ◌∷◌, ◌++◌, arith, ltb, length, length-append,
}
use i_user_apps.Compositor.Texts.{drop_bytes, is_png, has_png_suffix}

drop_bytes-append : (name suffix : List ℕ) → drop_bytes (length name) (name ++ suffix) ≡ suffix
drop_bytes-append [] suffix = refl
drop_bytes-append (c ∷ name) suffix = drop_bytes-append name suffix

-- A name with four more bytes has the suffix if these are one, whatever the name is.
pub has_png_suffix-append :
    (name suffix : List ℕ) → length suffix ≡ 4 → has_png_suffix (name ++ suffix) ≡ is_png suffix
unfolding has_png_suffix
has_png_suffix-append name suffix four =
    let size = length-append name suffix in
    let long : ltb (length (name ++ suffix)) 4 ≡ false = ground (arith, size, four) in
    let front : length (name ++ suffix) - 4 ≡ length name = omega (arith, size, four) in
    rw long (
      ap (λ n. is_png (drop_bytes n (name ++ suffix))) front
      ∙ ap is_png (drop_bytes-append name suffix))
