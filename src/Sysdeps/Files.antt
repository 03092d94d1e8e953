-- ===== src/Sysdeps/Files.antt =====
-- The calls on open files and on paths of sysdeps.cpp in outside/mlibc-sysdeps.
pub mod Offsets
pub mod Closed
use i_user_apps.Common.{
  ℕ, ◌%◌, ◌⊎◌, inl, inr, Bool, true, false, not, ◌||◌, Option, none, some, List, ◌==◌,
  if◌then◌else◌, get_or,
}
use i_user_apps.Sysdeps.Kernel.{
  ◌>>=◌, ◌>>◌, Reply, Call, Action, Error, Done, Abi, pure, raise, gets, modify, raise_if, syscall,
  check, ask, perform, sc_error,
}
use i_user_apps.Sysdeps.FdTable.{open_handle}
use i_user_apps.Sysdeps.Paths.{at_resolve, dir_size}
use Prim.Native.Nat.{bit_and}

-- A descriptor is a terminal if the kernel knows a size of its window.
unfoldable pub isatty : ℕ → Action Done
isatty fd = do
  handle ← open_handle fd
  r ← syscall (Call.sys_winsize handle)
  raise_if (not (sc_error r.ret == 0)) Error.enotty

unfoldable pub write_file : ℕ → List ℕ → Action ℕ
write_file fd bytes = do handle ← open_handle fd; r ← ask (Call.sys_write handle bytes); pure r.ret

-- What is read, and its size as the kernel says it.
unfoldable pub read_file : ℕ → ℕ → Action (ℕ × List ℕ)
read_file fd size = do
  handle ← open_handle fd
  r ← ask (Call.sys_read handle size)
  pure (r.ret, r.bytes)

unfoldable pub seek_file : ℕ → ℕ → ℕ → Action ℕ
seek_file fd offset whence = do
  handle ← open_handle fd
  r ← ask (Call.sys_seek handle offset whence)
  pure r.ret

unfoldable pub chdir : List ℕ → Action Done
chdir path = perform (Call.sys_chdir path)

unfoldable pub fchdir : ℕ → Action Done
fchdir fd = do
  handle ← open_handle fd
  r ← ask (Call.sys_fd_path handle dir_size)
  perform (Call.sys_chdir r.bytes)

unfoldable pub fchmod : ℕ → ℕ → Action Done
fchmod fd mode = do handle ← open_handle fd; perform (Call.sys_chmod_handle handle mode)

unfoldable pub ftruncate : ℕ → ℕ → Action Done
ftruncate fd size = do handle ← open_handle fd; perform (Call.sys_truncate_handle handle size)

unfoldable pub fsync : ℕ → Action Done
fsync fd = do handle ← open_handle fd; perform (Call.sys_fsync handle)

-- `pread` and `pwrite`: the offset is saved, set for the transfer, and set back.
unfoldable pub at_offset : ℕ → ℕ → Call → Action Reply
at_offset handle offset transfer = do
  saved ← ask (Call.sys_seek handle 0 1)
  ask (Call.sys_seek handle offset 0)
  r ← syscall transfer
  syscall (Call.sys_seek handle saved.ret 0)
  check r.ret
  pure r

unfoldable pub pread : ℕ → ℕ → ℕ → Action (ℕ × List ℕ)
pread fd size offset = do
  handle ← open_handle fd
  r ← at_offset handle offset (Call.sys_read handle size)
  pure (r.ret, r.bytes)

unfoldable pub pwrite : ℕ → List ℕ → ℕ → Action ℕ
pwrite fd bytes offset = do
  handle ← open_handle fd
  r ← at_offset handle offset (Call.sys_write handle bytes)
  pure r.ret

-- The path that a terminal was opened with.
unfoldable pub ttyname : ℕ → ℕ → Action (List ℕ)
ttyname fd size = do
  handle ← open_handle fd
  w ← syscall (Call.sys_winsize handle)
  raise_if (not (sc_error w.ret == 0)) Error.enotty
  r ← syscall (Call.sys_fd_path handle size)
  raise_if (not (sc_error r.ret == 0)) Error.enotty
  pure r.bytes

-- The fields that `stat` fills.
pub record Stat : Type 0 where
  pub st_dev : ℕ
  pub st_ino : ℕ
  pub st_nlink : ℕ
  pub st_mode : ℕ
  pub st_uid : ℕ
  pub st_gid : ℕ
  pub st_rdev : ℕ
  pub st_size : ℕ
  pub st_blksize : ℕ
  pub st_blocks : ℕ
  pub st_atime : ℕ
  pub st_mtime : ℕ
  pub st_ctime : ℕ

-- The kernel's fields are the words of its reply, in the order of `instantos_stat`.
unfoldable pub translate_stat : List ℕ → Stat
translate_stat ks = record {
  st_dev = get_or ks 0 0;
  st_ino = get_or ks 1 0;
  st_nlink = get_or ks 3 0;
  st_mode = get_or ks 2 0;
  st_uid = get_or ks 4 0;
  st_gid = get_or ks 5 0;
  st_rdev = get_or ks 6 0;
  st_size = get_or ks 7 0;
  st_blksize = get_or ks 8 0;
  st_blocks = get_or ks 9 0;
  st_atime = get_or ks 10 0;
  st_mtime = get_or ks 11 0;
  st_ctime = get_or ks 12 0;
}

-- `fsfd_target` with the arguments that it selects.
pub data StatTarget : Type 0 where
  target_path : (path : List ℕ) → StatTarget
  target_fd : (fd : ℕ) → StatTarget
  target_fd_path : (fd : ℕ) (path : Option (List ℕ)) → StatTarget
  other_target : StatTarget

unfoldable pub stat_call : List ℕ → ℕ → Abi → Call
stat_call path flags abi =
    if bit_and flags abi.symlink_nofollow == 0 then Call.sys_stat path else Call.sys_lstat path

-- The call that each kind of target makes.
unfoldable pub stat_target : StatTarget → ℕ → Action Call
stat_target other_target flags = raise Error.einval
stat_target (target_path path) flags = gets (λ p. stat_call path flags p.abi)
stat_target (target_fd fd) flags = do handle ← open_handle fd; pure (Call.sys_fstat handle)
stat_target (target_fd_path fd path) flags = do
  resolved ← at_resolve fd path
  gets (λ p. stat_call resolved flags p.abi)

unfoldable pub stat_file : StatTarget → ℕ → Action Stat
stat_file target flags = do
  call ← stat_target target flags
  r ← ask call
  pure (translate_stat r.words)

-- A `timespec` of `utimensat`, by its `tv_nsec`.
pub data FileTime : Type 0 where
  utime_omit utime_now : FileTime
  seconds : ℕ → FileTime

unfoldable pub omitted : FileTime → Bool
omitted utime_omit = true
omitted utime_now = false
omitted (seconds n) = false

unfoldable pub time_to_set : FileTime → ℕ → ℕ → ℕ
time_to_set utime_omit now existing = existing
time_to_set utime_now now existing = now
time_to_set (seconds n) now existing = n

-- The target of `utimensat`: a null path stands for the open file itself.
unfoldable pub utime_target : ℕ → Option (List ℕ) → Action (ℕ ⊎ List ℕ)
utime_target dirfd none = do handle ← open_handle dirfd; pure (inl handle)
utime_target dirfd (some path) = do resolved ← at_resolve dirfd (some path); pure (inr resolved)

unfoldable pub existing_call : ℕ ⊎ List ℕ → ℕ → Abi → Call
existing_call (inl handle) flags abi = Call.sys_fstat handle
existing_call (inr path) flags abi = stat_call path flags abi

-- The times on the disk, or `now` twice if they are not wanted or not known.
unfoldable pub existing_times : Bool → ℕ ⊎ List ℕ → ℕ → ℕ → Action (ℕ × ℕ)
existing_times false target flags now = pure (now, now)
existing_times true target flags now = do
  call ← gets (λ p. existing_call target flags p.abi)
  r ← syscall call
  let stat = translate_stat r.words
  pure (if sc_error r.ret == 0 then (stat.st_atime, stat.st_mtime) else (now, now))

unfoldable pub utime_call : ℕ ⊎ List ℕ → ℕ → ℕ → Call
utime_call (inl handle) atime mtime = Call.sys_utime_handle handle atime mtime
utime_call (inr path) atime mtime = Call.sys_utime_path path atime mtime

-- Null times are `utime_now` twice.
unfoldable pub utimensat : ℕ → Option (List ℕ) → FileTime → FileTime → ℕ → Action Done
utimensat dirfd path access modification flags = do
  target ← utime_target dirfd path
  now ← syscall Call.sys_getunixtime
  existing ← existing_times (omitted access || omitted modification) target flags now.ret
  perform (
      utime_call target (time_to_set access now.ret existing.0)
        (time_to_set modification now.ret existing.1))

-- The fields that `statvfs` fills.
pub record Statvfs : Type 0 where
  pub f_bsize : ℕ
  pub f_frsize : ℕ
  pub f_blocks : ℕ
  pub f_bfree : ℕ
  pub f_bavail : ℕ
  pub f_files : ℕ
  pub f_ffree : ℕ
  pub f_favail : ℕ
  pub f_fsid : ℕ
  pub f_flag : ℕ
  pub f_namemax : ℕ

-- The words: block size, total and free blocks, total and free inodes, longest name, type.
unfoldable pub fill_statvfs : List ℕ → Statvfs
fill_statvfs ks = record {
  f_bsize = get_or ks 0 0;
  f_frsize = get_or ks 0 0;
  f_blocks = get_or ks 1 0;
  f_bfree = get_or ks 2 0;
  f_bavail = get_or ks 2 0;
  f_files = get_or ks 3 0;
  f_ffree = get_or ks 4 0;
  f_favail = get_or ks 4 0;
  f_fsid = get_or ks 6 0;
  f_flag = 0;
  f_namemax = get_or ks 5 0;
}

unfoldable pub statvfs : List ℕ → Action Statvfs
statvfs path = do r ← ask (Call.sys_statfs_path path); pure (fill_statvfs r.words)

unfoldable pub fstatvfs : ℕ → Action Statvfs
fstatvfs fd = do
  handle ← open_handle fd
  r ← ask (Call.sys_statfs_handle handle)
  pure (fill_statvfs r.words)

-- The old mask; it starts at 022.
unfoldable pub change_umask : ℕ → Action ℕ
change_umask mode = do
  old ← gets (λ p. p.umask)
  modify (λ p. record p { umask = mode % 512 })
  pure old
