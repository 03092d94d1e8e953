-- ===== src/Sysdeps/Directory.antt =====
-- Directory streams of sysdeps.cpp in outside/mlibc-sysdeps, and the calls that open, read and close
-- them. A path and a name are the bytes before the NUL.
pub mod Records
pub mod Walk
pub mod Stale
use i_user_apps.Common.{
  drop, ℕ, zero, suc, ◌+◌, ◌-◌, ◌*◌, ◌/◌, ◌%◌, ◌^◌, Bool, true, false, not, ◌&&◌, ◌||◌, Option,
  none, some, List, [], ◌∷◌, ◌++◌, ltb, leb, ◌==◌, if◌then◌else◌, length, get_or, replicate, take,
}
use i_user_apps.Sysdeps.Kernel.{
  ◌>>=◌, ◌>>◌, Call, Action, ok, err, Error, Done, KernelEntry, DirStream, pure, raise, gets,
  modify, raise_if, ask, perform,
}
use i_user_apps.Sysdeps.FdTable.{open_handle, set_fd}
use i_user_apps.Sysdeps.Paths.{dir_size, fd_to_path}
use i_user_apps.Common.CString.{copy_from}

abbrev pub max_dirs : ℕ
max_dirs = 32

abbrev pub max_dir_entries : ℕ
max_dir_entries = 256

abbrev pub dir_handle_base : ℕ
dir_handle_base = 2 ^ 30

-- `fd >= kDirHandleBase` on the pattern of an `int`.
abbrev pub is_dir_handle : ℕ → Bool
is_dir_handle fd = leb dir_handle_base fd && ltb fd (2 ^ 31)

unfoldable pub fresh_stream : List ℕ → DirStream → DirStream
fresh_stream path old = record {
  in_use = true;
  loaded = false;
  from_fd = false;
  owner_fd = 0;
  cursor = 0;
  entries = [];
  path = copy_from 0 dir_size path;
}

-- The first stream that is free takes the path.
unfoldable pub alloc_dir_stream : List DirStream → ℕ → List ℕ → Option ℕ × List DirStream
alloc_dir_stream [] slot path = (none, [])
alloc_dir_stream (dir ∷ dirs) slot path =
    let (found, rest) = alloc_dir_stream dirs (slot + 1) path in
    if dir.in_use then (found, dir ∷ rest) else (some slot, fresh_stream path dir ∷ dirs)

unfoldable pub find_dir_stream_by_fd : List DirStream → ℕ → ℕ → Option ℕ
find_dir_stream_by_fd [] slot fd = none
find_dir_stream_by_fd (dir ∷ dirs) slot fd =
    let rest = find_dir_stream_by_fd dirs (slot + 1) fd in
    if dir.in_use && dir.from_fd && dir.owner_fd == fd then some slot else rest

-- A change of the stream in a slot.
unfoldable pub update_stream : ℕ → (DirStream → DirStream) → List DirStream → List DirStream
update_stream slot change [] = []
update_stream zero change (dir ∷ dirs) = change dir ∷ dirs
update_stream (suc slot) change (dir ∷ dirs) = dir ∷ update_stream slot change dirs

unfoldable pub on_stream : ℕ → (DirStream → DirStream) → Action Done
on_stream slot change = modify (λ p. record p { dirs = update_stream slot change p.dirs })

unfoldable pub slot_in_use : List DirStream → ℕ → Bool
slot_in_use [] slot = false
slot_in_use (dir ∷ dirs) zero = dir.in_use
slot_in_use (dir ∷ dirs) (suc slot) = slot_in_use dirs slot

unfoldable pub alloc_slot : List ℕ → Action ℕ
alloc_slot path p =
    let (found, dirs) = alloc_dir_stream p.dirs 0 path in
    (elim found [ none ↦ err Error.emfile | some slot ↦ ok slot ], record p { dirs = dirs })

unfoldable pub open_dir : Option (List ℕ) → Action ℕ
open_dir none = raise Error.einval
open_dir (some path) = do slot ← alloc_slot path; pure (slot + dir_handle_base)

-- The stream of a handle that `open_dir` gave.
unfoldable pub high_slot : ℕ → Action ℕ
high_slot handle = do
  let slot = handle - dir_handle_base
  used ← gets (λ p. slot_in_use p.dirs slot)
  raise_if (not (ltb slot max_dirs) || not used) Error.ebadf
  pure slot

-- The stream that a real descriptor owns, which the first read makes.
unfoldable pub owned_slot : ℕ → Option ℕ → Action ℕ
owned_slot fd (some slot) = pure slot
owned_slot fd none = do
  path ← fd_to_path fd
  slot ← alloc_slot path
  on_stream slot (λ dir. record dir { from_fd = true; owner_fd = fd })
  pure slot

unfoldable pub dir_slot : Bool → ℕ → Action ℕ
dir_slot true handle = high_slot handle
dir_slot false handle = do
  owned ← gets (λ p. find_dir_stream_by_fd p.dirs 0 handle)
  owned_slot handle owned

abbrev pub no_stream : DirStream
no_stream = record {
  in_use = false;
  loaded = false;
  from_fd = false;
  owner_fd = 0;
  cursor = 0;
  path = [];
  entries = [];
}

unfoldable pub stream_at : ℕ → Action DirStream
stream_at slot = gets (λ p. get_or p.dirs slot no_stream)

-- The entries of the directory, at the first read only.
unfoldable pub load_stream : ℕ → DirStream → Bool → Action Done
load_stream slot dir true = pure tt
load_stream slot dir false = do
  r ← ask (Call.sys_readdir dir.path max_dir_entries)
  on_stream slot (λ d. record d { entries = take r.ret r.entries; cursor = 0; loaded = true })

-- The types are numbered from 0: regular file, directory, character and block device, link, pipe, socket.
unfoldable pub dt_from_filetype : ℕ → ℕ
dt_from_filetype type = get_or (8 ∷ 4 ∷ 2 ∷ 6 ∷ 10 ∷ 1 ∷ 12 ∷ []) type 0

-- `offsetof(struct dirent, d_name)`.
abbrev pub name_prefix : ℕ
name_prefix = 19

-- The size of a record, rounded up to 8.
unfoldable pub record_size : KernelEntry → ℕ
record_size e = (name_prefix + length e.name + 1 + 7) / 8 * 8

-- The lowest bytes of a number, the lowest one first.
abbrev pub le_bytes : ℕ → ℕ → List ℕ
le_bytes zero n = []
le_bytes (suc count) n = n % 256 ∷ le_bytes count (n / 256)

unfoldable pub record_bytes : KernelEntry → ℕ → List ℕ
record_bytes e cursor =
    le_bytes 8 e.inode
    ++ le_bytes 8 (cursor + 1)
    ++ le_bytes 2 (record_size e)
    ++ dt_from_filetype e.type ∷ e.name
    ++ 0 ∷ replicate (record_size e - (name_prefix + length e.name + 1)) 0

-- The loop over the entries from the cursor on, with the records of those that still fit.
unfoldable pub fill_records : List KernelEntry → ℕ → ℕ → ℕ → List ℕ × ℕ
fill_records [] cursor written max_size = ([], cursor)
fill_records (e ∷ es) cursor written max_size =
    let (bytes, next) = fill_records es (cursor + 1) (written + record_size e) max_size in
    if ltb max_size (written + record_size e)
    then ([], cursor)
    else (record_bytes e cursor ++ bytes, next)

unfoldable pub read_stream : DirStream → ℕ → List ℕ × DirStream
read_stream dir max_size =
    let (bytes, next) = fill_records (drop dir.cursor dir.entries) dir.cursor 0 max_size in
    (bytes, record dir { cursor = next })

unfoldable pub read_entries : ℕ → ℕ → Action (List ℕ)
read_entries handle max_size = do
  slot ← dir_slot (is_dir_handle handle) handle
  dir ← stream_at slot
  load_stream slot dir dir.loaded
  loaded_dir ← stream_at slot
  let (bytes, after) = read_stream loaded_dir max_size
  on_stream slot (λ d. after)
  pure bytes

unfoldable pub release_owned : Option ℕ → Action Done
release_owned none = pure tt
release_owned (some slot) =
    on_stream slot (λ dir. record dir { in_use = false; loaded = false; from_fd = false })

unfoldable pub close_handle : Bool → ℕ → ℕ → Action Done
close_handle true fd handle = pure tt
close_handle false fd handle = do perform (Call.sys_close handle); set_fd fd 0

unfoldable pub close_kind : Bool → ℕ → Action Done
close_kind true fd = do
  slot ← high_slot fd
  on_stream slot (λ dir. record dir { in_use = false; loaded = false })
close_kind false fd = do
  owned ← gets (λ p. find_dir_stream_by_fd p.dirs 0 fd)
  release_owned owned
  handle ← open_handle fd
  close_handle (ltb fd 3) fd handle

-- `Close`: the standard streams stay open.
unfoldable pub close_fd : ℕ → Action Done
close_fd fd = close_kind (is_dir_handle fd) fd
