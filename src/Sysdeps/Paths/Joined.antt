-- ===== src/Sysdeps/Paths/Joined.antt =====
-- join_path of sysdeps.cpp in outside/mlibc-sysdeps against the whole path, cut once.
use i_user_apps.Common.{
  ℕ, zero, suc, ◌+◌, ◌-◌, ◌≤◌, ◌<◌, ◌≡◌, refl, sym, ap, inl, inr, true, List, [], ◌∷◌, ◌++◌, arith,
  ltb, if◌then◌else◌, ltb→lt, ltb→ge, Bool-cases, length, take, length-append, append_nil, take_all,
}
use i_user_apps.Common.CString.{copy_from-eq-take}
use i_user_apps.Sysdeps.Paths.{slash, out_size, ends_with_slash, add_slash, join_path}

-- The directory with a slash at its end.
unfoldable pub as_directory : List ℕ → List ℕ
as_directory dir = if ends_with_slash dir then dir else dir ++ slash ∷ []

pub take_nil : (n : ℕ) → take {A = ℕ} n [] ≡ []
take_nil zero = refl
take_nil (suc n) = refl

take-append : (n : ℕ) (xs ys : List ℕ) → take n (xs ++ ys) ≡ take n xs ++ take (n - length xs) ys
take-append n [] ys = let e : n - 0 ≡ n = omega arith in rw (e, take_nil n)
take-append zero (x ∷ xs) ys = let e : 0 - suc (length xs) ≡ 0 = omega arith in rw e
take-append (suc n) (x ∷ xs) ys =
    let e : suc n - suc (length xs) ≡ n - length xs = omega arith in
    rw e (ap (λ t. x ∷ t) (take-append n xs ys))

length-take : (n : ℕ) (xs : List ℕ) → n ≤ length xs → length (take n xs) ≡ n
length-take zero xs h = refl
length-take (suc n) [] h = absurd (omega (arith, h))
length-take (suc n) (x ∷ xs) h = ap suc (length-take n xs (omega (arith, h)))

-- A directory that fills the buffer leaves no room for a slash.
long_start : (dir : List ℕ) → 511 ≤ length dir → take 511 (as_directory dir) ≡ take 511 dir
unfolding as_directory
long_start dir long = elim (Bool-cases (ends_with_slash dir)) [
  | inl ends ↦ rw ends
  | inr open_end ↦
      let rest : 511 - length dir ≡ 0 = omega (arith, long) in
      rw (open_end, take-append 511 dir (slash ∷ []), rest) (append_nil (take 511 dir))
]

add_slash-full : (dir : List ℕ) → length dir ≡ 511 → add_slash dir ≡ dir
unfolding add_slash
add_slash-full dir full = elim (Bool-cases (ends_with_slash dir)) [
  | inl ends ↦ rw ends
  | inr open_end ↦ rw (open_end, full)
]

short_start : (dir : List ℕ) → length dir < 511 → add_slash dir ≡ take 511 (as_directory dir)
unfolding add_slash as_directory
short_start dir short = elim (Bool-cases (ends_with_slash dir)) [
  | inl ends ↦ rw (ends, take_all dir 511 (omega (arith, short)))
  | inr open_end ↦
      let room : ltb (length dir + 1) out_size ≡ true = ground (arith, short) in
      let size : length (dir ++ slash ∷ []) ≤ 511 =
        omega (arith, short, length-append dir (slash ∷ [])) in
      rw (open_end, room, take_all (dir ++ slash ∷ []) 511 size)
]

-- The start of the joined path.
start-eq : (dir : List ℕ) → add_slash (take 511 dir) ≡ take 511 (as_directory dir)
start-eq dir = elim (Bool-cases (ltb (length dir) 511)) [
  | inl short ↦
      let few : length dir < 511 = ltb→lt (length dir) 511 short in
      rw (take_all dir 511 (omega (arith, few))) (short_start dir few)
  | inr long ↦
      let many : 511 ≤ length dir = ltb→ge (length dir) 511 long in
      rw (long_start dir many) (add_slash-full (take 511 dir) (length-take 511 dir many))
]

-- What is left after the start.
rest-eq :
    (start path : List ℕ)
    → take (512 - (length (take 511 start) + 1)) path ≡ take (511 - length start) path
rest-eq start path = elim (Bool-cases (ltb (length start) 511)) [
  | inl short ↦
      let few : length start < 511 = ltb→lt (length start) 511 short in
      let e : 512 - (length start + 1) ≡ 511 - length start = omega (arith, few) in
      rw (take_all start 511 (omega (arith, few)), e)
  | inr long ↦
      let many : 511 ≤ length start = ltb→ge (length start) 511 long in
      let e : 511 - length start ≡ 0 = omega (arith, many) in rw (length-take 511 start many, e)
]

-- The path that the source builds in its buffer is the directory's path, a slash unless it ends with
-- one, and the path, cut to the 511 bytes that the buffer has room for.
pub join_path-eq-take :
    (dir path : List ℕ) → join_path dir path ≡ take (out_size - 1) (as_directory dir ++ path)
unfolding join_path
join_path-eq-take dir path =
    let start = as_directory dir in
    rw
      (
        copy_from-eq-take dir 0 512,
        start-eq dir,
        copy_from-eq-take path (length (take 511 start)) 512,
        rest-eq start path,
      )
      (sym (take-append 511 start path))
