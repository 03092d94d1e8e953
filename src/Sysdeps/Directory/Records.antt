-- ===== src/Sysdeps/Directory/Records.antt =====
-- The records of a directory in sysdeps.cpp of outside/mlibc-sysdeps, read back by the layout of a
-- `struct dirent` on Linux.
use i_user_apps.Common.{drop}
use i_user_apps.Common.{
  ℕ, zero, suc, ◌+◌, ◌-◌, ◌*◌, ◌/◌, ◌^◌, ◌≤◌, ◌<◌, ◌≡◌, refl, ap, ◌∙◌, subst, ◌≢◌, false, List, [],
  ◌∷◌, ◌++◌, arith, ◌==◌, if◌then◌else◌, length, get_or, replicate, take, length-append, All,
  append_assoc,
}
use i_user_apps.Sysdeps.Kernel.{KernelEntry}
use i_user_apps.Sysdeps.Directory.{
  record_size, record_bytes, dt_from_filetype, le_bytes, name_prefix,
}

-- A `struct dirent`.
pub record Dirent : Type 0 where
  pub d_ino : ℕ
  pub d_off : ℕ
  pub d_reclen : ℕ
  pub d_type : ℕ
  pub d_name : List ℕ

abbrev pub read_le : List ℕ → ℕ
read_le [] = 0
read_le (b ∷ bytes) = b + 256 * read_le bytes

abbrev until_nul : List ℕ → List ℕ
until_nul [] = []
until_nul (c ∷ bytes) = if c == 0 then [] else c ∷ until_nul bytes

-- The record at the start of the bytes: the fields at 0, 8, 16 and 18, the name at 19.
unfoldable pub read_dirent : List ℕ → Dirent
read_dirent bytes = record {
  d_ino = read_le (take 8 bytes);
  d_off = read_le (take 8 (drop 8 bytes));
  d_reclen = read_le (take 2 (drop 16 bytes));
  d_type = get_or bytes 18 0;
  d_name = until_nul (drop 19 bytes);
}

-- The records of a buffer, each `d_reclen` bytes after the one before, with fuel.
unfoldable pub read_dirents : ℕ → List ℕ → List Dirent
read_dirents zero bytes = []
read_dirents (suc fuel) [] = []
read_dirents (suc fuel) (b ∷ bytes) =
    let first = read_dirent (b ∷ bytes) in
    first ∷ read_dirents fuel (drop first.d_reclen (b ∷ bytes))

-- Linux's `DT_` number of a kind of file, in the kernel's order: regular file, directory, character
-- device, block device, symbolic link, pipe, socket; 0, the unknown kind, for any other.
unfoldable pub linux_type : ℕ → ℕ
linux_type zero = 8
linux_type (suc zero) = 4
linux_type (suc (suc zero)) = 2
linux_type (suc (suc (suc zero))) = 6
linux_type (suc (suc (suc (suc zero)))) = 10
linux_type (suc (suc (suc (suc (suc zero))))) = 1
linux_type (suc (suc (suc (suc (suc (suc zero)))))) = 12
linux_type (suc (suc (suc (suc (suc (suc (suc type))))))) = 0

dt_from_filetype-eq : (type : ℕ) → dt_from_filetype type ≡ linux_type type
unfolding dt_from_filetype linux_type
dt_from_filetype-eq zero = refl
dt_from_filetype-eq (suc zero) = refl
dt_from_filetype-eq (suc (suc zero)) = refl
dt_from_filetype-eq (suc (suc (suc zero))) = refl
dt_from_filetype-eq (suc (suc (suc (suc zero)))) = refl
dt_from_filetype-eq (suc (suc (suc (suc (suc zero))))) = refl
dt_from_filetype-eq (suc (suc (suc (suc (suc (suc zero)))))) = refl
dt_from_filetype-eq (suc (suc (suc (suc (suc (suc (suc type))))))) = refl

-- The entry as a program should see it, the first one of the directory at offset 1.
unfoldable pub dirent : KernelEntry → ℕ → Dirent
dirent e cursor = record {
  d_ino = e.inode;
  d_off = cursor + 1;
  d_reclen = record_size e;
  d_type = linux_type e.type;
  d_name = e.name;
}

-- What the kernel's `instantos_dirent` can hold: a name of at most 255 bytes and 64 bits of the inode.
pub record IsEntry (e : KernelEntry) : Type 0 where
  pub name_short : length e.name < 256
  pub name_bytes : All (λ c. c ≢ 0) e.name
  pub inode_small : e.inode < 2 ^ 64

-- 256 to the power of `count`.
abbrev pub byte_limit : ℕ → ℕ
byte_limit zero = 1
byte_limit (suc count) = 256 * byte_limit count

pub read_le-le_bytes : (count n : ℕ) → n < byte_limit count → read_le (le_bytes count n) ≡ n
read_le-le_bytes zero n small = omega (arith, small)
read_le-le_bytes (suc count) n small =
    let rest : read_le (le_bytes count (n / 256)) ≡ n / 256 =
      read_le-le_bytes count (n / 256) (omega (arith, small)) in
    rw rest (omega arith)

until_nul-append :
    (name rest : List ℕ) → All (λ c. c ≢ 0) name → until_nul (name ++ 0 ∷ rest) ≡ name
until_nul-append [] rest h = refl
until_nul-append (c ∷ name) rest (used, h) =
    let e : (c == 0) ≡ false = ground (arith, used) in
    rw e (ap (λ t. c ∷ t) (until_nul-append name rest h))

drop-append : {A : Type 0} → (xs ys : List A) → drop (length xs) (xs ++ ys) ≡ ys
drop-append [] ys = refl
drop-append (x ∷ xs) ys = drop-append xs ys

pub record_size_fits : (e : KernelEntry) → name_prefix + length e.name + 1 ≤ record_size e
unfolding record_size
record_size_fits e = omega arith

length-replicate : (n c : ℕ) → length (replicate n c) ≡ n
length-replicate zero c = refl
length-replicate (suc n) c = ap suc (length-replicate n c)

pub length-record_bytes :
    (e : KernelEntry) (cursor : ℕ) → length (record_bytes e cursor) ≡ record_size e
unfolding record_bytes
length-record_bytes e cursor =
    let pad = record_size e - (name_prefix + length e.name + 1) in
    rw (length-append e.name (0 ∷ replicate pad 0), length-replicate pad 0)
      (omega (arith, record_size_fits e))

name_read :
    (e : KernelEntry) (pad rest : List ℕ)
    → IsEntry e
    → until_nul ((e.name ++ 0 ∷ pad) ++ rest) ≡ e.name
name_read e pad rest ok_e =
    rw (append_assoc e.name (0 ∷ pad) rest) (until_nul-append e.name (pad ++ rest) ok_e.name_bytes)

size_small : (e : KernelEntry) → IsEntry e → record_size e < 2 ^ 16
unfolding record_size
size_small e ok_e = omega (arith, ok_e.name_short)

read_dirent-record_bytes :
    (e : KernelEntry) (cursor : ℕ) (rest : List ℕ)
    → IsEntry e
    → cursor + 1 < 2 ^ 64
    → read_dirent (record_bytes e cursor ++ rest) ≡ dirent e cursor
unfolding read_dirent record_bytes dirent
read_dirent-record_bytes e cursor rest ok_e small =
    let ino : read_le (le_bytes 8 e.inode) ≡ e.inode =
      read_le-le_bytes 8 e.inode ok_e.inode_small in
    let off : read_le (le_bytes 8 (cursor + 1)) ≡ cursor + 1 =
      read_le-le_bytes 8 (cursor + 1) small in
    let len : read_le (le_bytes 2 (record_size e)) ≡ record_size e =
      read_le-le_bytes 2 (record_size e) (size_small e ok_e) in
    let named =
      name_read e (replicate (record_size e - (name_prefix + length e.name + 1)) 0) rest ok_e in
    λ i. record {
      d_ino = ino i;
      d_off = off i;
      d_reclen = len i;
      d_type = dt_from_filetype-eq e.type i;
      d_name = named i;
    }

-- The records of some entries, the first one at a cursor, and what a program should read.
unfoldable pub all_records : List KernelEntry → ℕ → List ℕ
all_records [] cursor = []
all_records (e ∷ es) cursor = record_bytes e cursor ++ all_records es (cursor + 1)

unfoldable pub dirents : List KernelEntry → ℕ → List Dirent
dirents [] cursor = []
dirents (e ∷ es) cursor = dirent e cursor ∷ dirents es (cursor + 1)

read_first :
    (fuel : ℕ) (bytes : List ℕ)
    → 0 < length bytes
    → read_dirents (suc fuel) bytes
      ≡ read_dirent bytes ∷ read_dirents fuel (drop (read_dirent bytes).d_reclen bytes)
unfolding read_dirents
read_first fuel [] h = absurd (omega (arith, h))
read_first fuel (b ∷ bytes) h = refl

pub read_dirents-all_records :
    (es : List KernelEntry) (cursor fuel : ℕ)
    → All IsEntry es
    → cursor + length es < 2 ^ 64
    → length es ≤ fuel
    → read_dirents fuel (all_records es cursor) ≡ dirents es cursor
unfolding all_records dirents dirent read_dirents
read_dirents-all_records [] cursor zero h small enough = refl
read_dirents-all_records [] cursor (suc fuel) h small enough = refl
read_dirents-all_records (e ∷ es) cursor zero h small enough = absurd (omega (arith, enough))
read_dirents-all_records (e ∷ es) cursor (suc fuel) (ok_e, h) small enough =
    let rest = all_records es (cursor + 1) in
    let bytes = record_bytes e cursor in
    let size : length (bytes ++ rest) ≡ record_size e + length rest =
      rw (length-append bytes rest, length-record_bytes e cursor) in
    let next : drop (record_size e) (bytes ++ rest) ≡ rest =
      subst (λ n. drop n (bytes ++ rest) ≡ rest) (length-record_bytes e cursor)
        (drop-append bytes rest) in
    rw
      (
        read_first fuel (bytes ++ rest) (omega (arith, size, record_size_fits e)),
        read_dirent-record_bytes e cursor rest ok_e (omega (arith, small)),
      )
      (ap (λ t. dirent e cursor ∷ t)
        (ap (read_dirents fuel) next
          ∙ read_dirents-all_records es (cursor + 1) fuel h (omega (arith, small))
              (omega (arith, enough))))
