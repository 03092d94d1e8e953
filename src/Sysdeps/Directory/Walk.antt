-- ===== src/Sysdeps/Directory/Walk.antt =====
-- Reading a directory of sysdeps.cpp in outside/mlibc-sysdeps to its end, in buffers of any size that
-- holds one record.
use i_user_apps.Common.{drop}
use i_user_apps.Common.{
  ℕ, zero, suc, ◌+◌, ◌-◌, ◌^◌, ◌≤◌, ◌<◌, ◌≡◌, refl, sym, ap, ◌∙◌, subst, inl, inr, some, List, [],
  ◌∷◌, ◌++◌, arith, ltb, ltb→lt, ltb→ge, Bool-cases, length, get_elem?, take, length-append, All,
  append_assoc, some_injective,
}
use i_user_apps.Sysdeps.Kernel.{KernelEntry, DirStream}
use i_user_apps.Sysdeps.Directory.{record_size, record_bytes, fill_records, read_stream}
use i_user_apps.Sysdeps.Directory.Records.{
  IsEntry, dirents, all_records, read_dirents, read_dirents-all_records, length-record_bytes,
}

-- What one pass of the loop leaves: the records of the next entries, as many as fit.
record IsFilled (es : List KernelEntry) (cursor written max_size : ℕ) (bytes : List ℕ) (next : ℕ)
    : Type 0 where
  count : ℕ
  few : count ≤ length es
  holds : bytes ≡ all_records (take count es) cursor
  moved : next ≡ cursor + count
  full :
      (e : KernelEntry)
      → get_elem? es count ≡ some e
      → max_size < written + length bytes + record_size e

fill_records-IsFilled :
    (es : List KernelEntry) (cursor written max_size : ℕ)
    → let (bytes, next) = fill_records es cursor written max_size in
      IsFilled es cursor written max_size bytes next
unfolding fill_records all_records
fill_records-IsFilled [] cursor written max_size = record {
  count = 0;
  few = omega arith;
  holds = refl;
  moved = omega arith;
  full = λ e h. absurd cc;
}
fill_records-IsFilled (e ∷ es) cursor written max_size =
    elim (Bool-cases (ltb max_size (written + record_size e))) [
      | inl over ↦ rw over (record {
        count = 0;
        few = omega arith;
        holds = refl;
        moved = omega arith;
        full = λ x h. omega (
          arith,
          ltb→lt max_size (written + record_size e) over,
          ap record_size (some_injective e x h),
        );
      })
      | inr fits ↦
          let rest = fill_records-IsFilled es (cursor + 1) (written + record_size e) max_size in
          rw fits (record {
            count = suc rest.count;
            few = omega (arith, rest.few);
            holds = ap (λ t. record_bytes e cursor ++ t) rest.holds;
            moved = omega (arith, rest.moved);
            full = λ x h. omega (
              arith,
              rest.full x h,
              length-append (record_bytes e cursor)
                  (fill_records es (cursor + 1) (written + record_size e) max_size).0,
              length-record_bytes e cursor,
            );
          })
    ]

-- Reading again and again, `fuel` times.
unfoldable pub read_all : ℕ → DirStream → ℕ → List ℕ
read_all zero dir max_size = []
read_all (suc fuel) dir max_size =
    let (bytes, after) = read_stream dir max_size in bytes ++ read_all fuel after max_size

drop-add : {A : Type 0} → (m n : ℕ) (xs : List A) → drop (m + n) xs ≡ drop n (drop m xs)
drop-add zero n xs = let e : 0 + n ≡ n = omega arith in rw e
drop-add (suc m) n [] = let e : suc m + n ≡ suc (m + n) = omega arith in rw e (sym (drop_nil n))
  where
    drop_nil : {A : Type 0} → (n : ℕ) → drop {A = A} n [] ≡ []
    drop_nil zero = refl
    drop_nil (suc n) = refl
drop-add (suc m) n (x ∷ xs) =
    let e : suc m + n ≡ suc (m + n) = omega arith in rw e (drop-add m n xs)

length-drop : {A : Type 0} → (n : ℕ) (xs : List A) → length (drop n xs) ≡ length xs - n
length-drop zero xs = omega arith
length-drop (suc n) [] = omega arith
length-drop (suc n) (x ∷ xs) =
    let e : suc (length xs) - suc n ≡ length xs - n = omega arith in rw e (length-drop n xs)

all_records-split :
    (es : List KernelEntry) (k cursor : ℕ)
    → all_records (take k es) cursor ++ all_records (drop k es) (cursor + k) ≡ all_records es cursor
unfolding all_records
all_records-split es zero cursor = ap (all_records es) (omega arith)
all_records-split [] (suc k) cursor = refl
all_records-split (e ∷ es) (suc k) cursor =
    let shift : cursor + suc k ≡ cursor + 1 + k = omega arith in
    rw
      (
        shift,
        append_assoc (record_bytes e cursor) (all_records (take k es) (cursor + 1))
            (all_records (drop k es) (cursor + 1 + k)),
      )
      (ap (λ t. record_bytes e cursor ++ t) (all_records-split es k (cursor + 1)))

size_bound : (e : KernelEntry) → IsEntry e → record_size e ≤ 280
unfolding record_size
size_bound e ok_e = omega (arith, ok_e.name_short)

All-drop : {A : Type 0} → (P : A → Type 0) (n : ℕ) (xs : List A) → All P xs → All P (drop n xs)
All-drop P zero xs h = h
All-drop P (suc n) [] h = h
All-drop P (suc n) (x ∷ xs) (px, h) = All-drop P n xs h

-- While entries are left, a buffer that holds a record takes one of them.
count_positive :
    (es : List KernelEntry) (cursor max_size : ℕ) {bytes : List ℕ} {next : ℕ}
    → All IsEntry es
    → 280 ≤ max_size
    → 0 < length es
    → (filled : IsFilled es cursor 0 max_size bytes next) → 0 < filled.count
unfolding all_records
count_positive [] cursor max_size h room left filled = absurd (omega (arith, left))
count_positive (e ∷ es) cursor max_size {bytes = bytes} (ok_e, h) room left filled =
    elim (Bool-cases (ltb 0 filled.count)) [
      | inl some_count ↦ ltb→lt 0 filled.count some_count
      | inr no_count ↦
          let zero_count : filled.count ≡ 0 = ground (arith, no_count) in
          let here : get_elem? (e ∷ es) filled.count ≡ some e = rw zero_count refl in
          let nothing : bytes ≡ [] = filled.holds ∙ rw zero_count refl in
          absurd (omega (arith, filled.full e here, ap length nothing, size_bound e ok_e, room))
    ]

-- What is left after a pass.
left_after :
    (es : List KernelEntry) (cursor max_size fuel : ℕ) {bytes : List ℕ} {next : ℕ}
    → All IsEntry es
    → 280 ≤ max_size
    → length es ≤ suc fuel
    → (filled : IsFilled es cursor 0 max_size bytes next) → length (drop filled.count es) ≤ fuel
left_after es cursor max_size fuel h room enough filled = elim (Bool-cases (ltb 0 (length es))) [
  | inl left ↦ omega (
    arith,
    length-drop filled.count es,
    enough,
    count_positive es cursor max_size h room (ltb→lt 0 (length es) left) filled,
  )
  | inr nothing ↦ omega (arith, length-drop filled.count es, ltb→ge 0 (length es) nothing)
]

no_records : (es : List KernelEntry) (cursor : ℕ) → length es ≤ 0 → [] ≡ all_records es cursor
unfolding all_records
no_records [] cursor h = refl
no_records (e ∷ es) cursor h = absurd (omega (arith, h))

read_all-all_records :
    (fuel : ℕ) (dir : DirStream) (max_size : ℕ)
    → All IsEntry dir.entries
    → 280 ≤ max_size
    → length (drop dir.cursor dir.entries) ≤ fuel
    → read_all fuel dir max_size ≡ all_records (drop dir.cursor dir.entries) dir.cursor
unfolding read_all read_stream
read_all-all_records zero dir max_size h room enough =
    no_records (drop dir.cursor dir.entries) dir.cursor enough
read_all-all_records (suc fuel) dir max_size h room enough =
    let es : List KernelEntry = drop dir.cursor dir.entries in
    let (bytes, next) = fill_records es dir.cursor 0 max_size in
    let after : DirStream = record dir { cursor = next } in
    let filled = fill_records-IsFilled es dir.cursor 0 max_size in
    let rest_eq : drop next dir.entries ≡ drop filled.count es =
      ap (λ n. drop n dir.entries) filled.moved ∙ drop-add dir.cursor filled.count dir.entries in
    let left =
      left_after es dir.cursor max_size fuel (All-drop IsEntry dir.cursor dir.entries h) room enough
        filled in
    let rest =
      read_all-all_records fuel after max_size h room
        (subst (λ xs. length xs ≤ fuel) (sym rest_eq) left) in
    let rest_records : all_records (drop next dir.entries) next
        ≡ all_records (drop filled.count es) (dir.cursor + filled.count) =
      λ i. all_records (rest_eq i) (filled.moved i) in
    (λ i. filled.holds i ++ (rest ∙ rest_records) i) ∙ all_records-split es filled.count dir.cursor

-- A directory that is read from its start to its end, in buffers of any size of at least 280 bytes and
-- with enough reads, gives a program each entry once and in order, with its inode, its type, its name
-- and the offset of the next one, whatever the buffers' size cut the records into.
pub read_dirents-read_all :
    (dir : DirStream) (max_size fuel count : ℕ)
    → All IsEntry dir.entries
    → dir.cursor ≡ 0
    → 280 ≤ max_size
    → length dir.entries < 2 ^ 64
    → length dir.entries ≤ fuel
    → length dir.entries ≤ count
    → read_dirents count (read_all fuel dir max_size) ≡ dirents dir.entries 0
read_dirents-read_all dir max_size fuel count h start room small reads enough =
    let whole : drop dir.cursor dir.entries ≡ dir.entries = rw start refl in
    let left : length (drop dir.cursor dir.entries) ≤ fuel =
      subst (λ xs. length xs ≤ fuel) (sym whole) reads in
    let all_bytes : read_all fuel dir max_size ≡ all_records dir.entries 0 =
      read_all-all_records fuel dir max_size h room left ∙ (λ i. all_records (whole i) (start i)) in
    ap (read_dirents count) all_bytes
    ∙ read_dirents-all_records dir.entries 0 count h (omega (arith, small)) enough
