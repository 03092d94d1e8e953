-- ===== src/Sysdeps/Paths.antt =====
-- Paths relative to an open directory, and the calls that take them, in sysdeps.cpp of
-- outside/mlibc-sysdeps. A null path is none.
pub mod Joined
use i_user_apps.Common.{
  ℕ, ◌+◌, ◌-◌, ◌%◌, Bool, true, false, not, ◌||◌, Option, none, some, List, [], ◌∷◌, ◌++◌, ltb,
  ◌==◌, if◌then◌else◌, length, take, u32_mod,
}
use i_user_apps.Sysdeps.Kernel.{
  ◌>>=◌, ◌>>◌, Reply, Call, Action, Error, Done, pure, raise, raise_if, ask, perform, is_negative64,
}
use i_user_apps.Sysdeps.FdTable.{open_handle, keep_handle}
use i_user_apps.Common.CString.{copy_from}
use Prim.Native.Nat.{bit_and}

-- `AT_FDCWD`, -100.
abbrev pub at_fdcwd : ℕ
at_fdcwd = u32_mod - 100

abbrev pub slash : ℕ
slash = 47

-- The size of the buffers for a path, and of those for a directory's path.
abbrev pub out_size : ℕ
out_size = 512

abbrev pub dir_size : ℕ
dir_size = 256

unfoldable pub starts_with_slash : List ℕ → Bool
starts_with_slash [] = false
starts_with_slash (c ∷ path) = c == slash

unfoldable pub ends_with_slash : List ℕ → Bool
ends_with_slash [] = false
ends_with_slash (c ∷ []) = c == slash
ends_with_slash (c ∷ d ∷ path) = ends_with_slash (d ∷ path)

-- A slash after the directory, if there is none and `out` has room.
unfoldable pub add_slash : List ℕ → List ℕ
add_slash dir =
    if ends_with_slash dir || not (ltb (length dir + 1) out_size) then dir else dir ++ slash ∷ []

unfoldable pub join_path : List ℕ → List ℕ → List ℕ
join_path dir path =
    let start = add_slash (copy_from 0 out_size dir) in
    start ++ copy_from (length start) out_size path

-- The bytes that the kernel wrote, as many as it says.
unfoldable pub path_bytes : Reply → List ℕ
path_bytes r = take (if is_negative64 r.ret then 0 else r.ret) r.bytes

unfoldable pub directory_path : ℕ → Action (List ℕ)
directory_path dirfd = do
  handle ← open_handle dirfd
  r ← ask (Call.sys_fd_path handle dir_size)
  pure (path_bytes r)

unfoldable pub resolve_in : Bool → ℕ → List ℕ → Action (List ℕ)
resolve_in true dirfd path = pure path
resolve_in false dirfd path = do dir ← directory_path dirfd; pure (join_path dir path)

unfoldable pub at_resolve : ℕ → Option (List ℕ) → Action (List ℕ)
at_resolve dirfd none = raise Error.einval
at_resolve dirfd (some path) = resolve_in (starts_with_slash path || dirfd == at_fdcwd) dirfd path

unfoldable pub fd_to_path : ℕ → Action (List ℕ)
fd_to_path fd = do
  handle ← open_handle fd
  r ← ask (Call.sys_fd_path handle dir_size)
  raise_if (r.ret == 0 || is_negative64 r.ret || not (ltb r.ret dir_size)) Error.einval
  pure (path_bytes r)

unfoldable pub openat : ℕ → Option (List ℕ) → ℕ → ℕ → Action ℕ
openat dirfd path flags mode = do
  p ← at_resolve dirfd path
  r ← ask (Call.sys_open p flags mode)
  keep_handle r.ret 3

unfoldable pub mkdirat : ℕ → Option (List ℕ) → ℕ → Action Done
mkdirat dirfd path mode = do p ← at_resolve dirfd path; perform (Call.sys_mkdir p mode)

-- `AT_REMOVEDIR` is 0x200.
unfoldable pub unlinkat : ℕ → Option (List ℕ) → ℕ → Action Done
unlinkat dirfd path flags = do
  p ← at_resolve dirfd path
  perform (if bit_and flags 512 == 0 then Call.sys_unlink p else Call.sys_rmdir p)

unfoldable pub renameat : ℕ → Option (List ℕ) → ℕ → Option (List ℕ) → Action Done
renameat old_dirfd old_path new_dirfd new_path = do
  old ← at_resolve old_dirfd old_path
  new ← at_resolve new_dirfd new_path
  perform (Call.sys_rename old new)

unfoldable pub fchmodat : ℕ → Option (List ℕ) → ℕ → Action Done
fchmodat dirfd path mode = do p ← at_resolve dirfd path; perform (Call.sys_chmod_path p mode)

unfoldable pub linkat : ℕ → Option (List ℕ) → ℕ → Option (List ℕ) → Action Done
linkat old_dirfd old_path new_dirfd new_path = do
  old ← at_resolve old_dirfd old_path
  new ← at_resolve new_dirfd new_path
  perform (Call.sys_link old new)

unfoldable pub symlinkat : List ℕ → ℕ → Option (List ℕ) → Action Done
symlinkat target dirfd link_path = do
  p ← at_resolve dirfd link_path
  perform (Call.sys_symlink target p)

-- What is read, as the kernel wrote it.
unfoldable pub readlinkat : ℕ → Option (List ℕ) → ℕ → Action (ℕ × List ℕ)
readlinkat dirfd path size = do
  p ← at_resolve dirfd path
  r ← ask (Call.sys_readlink p size)
  pure (r.ret, r.bytes)

-- `AT_EMPTY_PATH` is 0x1000.
unfoldable pub fchownat : ℕ → Option (List ℕ) → ℕ → ℕ → ℕ → Action Done
fchownat dirfd path owner group flags =
    if bit_and flags 4096 == 0
    then (do p ← at_resolve dirfd path; perform (Call.sys_chown_path p owner group flags))
    else (do handle ← open_handle dirfd; perform (Call.sys_chown_handle handle owner group flags))

unfoldable pub mknodat : ℕ → Option (List ℕ) → ℕ → ℕ → Action Done
mknodat dirfd path mode dev = do p ← at_resolve dirfd path; perform (Call.sys_mknod p mode dev)

-- `(mode & 07777) | S_IFIFO`, whose bits are apart.
unfoldable pub mkfifoat : ℕ → Option (List ℕ) → ℕ → Action Done
mkfifoat dirfd path mode = do
  p ← at_resolve dirfd path
  perform (Call.sys_mknod p (mode % 4096 + 4096) 0)

unfoldable pub faccessat : ℕ → Option (List ℕ) → ℕ → Action Done
faccessat dirfd path mode = do p ← at_resolve dirfd path; perform (Call.sys_access p mode)
