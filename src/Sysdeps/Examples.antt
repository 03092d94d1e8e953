-- ===== src/Sysdeps/Examples.antt =====
-- The theorems on the system layer of the C library, on small processes.
use i_user_apps.Common.{
  ℕ, zero, suc, ◌-◌, ◌≤◌, ◌≡◌, refl, ◌≢◌, true, false, none, some, List, [], ◌∷◌, ◌++◌, arith, ◌==◌,
  get_elem?, take, some_injective, replicate, All,
}
use i_user_apps.Sysdeps.Kernel.{
  ok, Process, Reply, Call, Log, err, Error, Abi, KernelEntry, DirStream, sc_error, minus_one,
  check, syscall,
}
use i_user_apps.Sysdeps.FdTable.{
  slot_for_fd, handle_for_fd, register_fd_min, open_file, pipe_fds, dup2_fd, instantos_fd_handle,
  fcntl_fd,
}
use i_user_apps.Sysdeps.FdTable.Unused.{IsTable, TakesLeast, register_fd_min-TakesLeast}
use i_user_apps.Sysdeps.FdTable.Overwrite.{fcntl_fd-overwrites}
use i_user_apps.Sysdeps.FdTable.Keep.{Kept, by_open, called, obtain-Kept}
use i_user_apps.Sysdeps.FdTable.Pipe.{pipe_fds-leaks}
use i_user_apps.Sysdeps.Paths.{join_path, out_size}
use i_user_apps.Sysdeps.Paths.Joined.{as_directory, join_path-eq-take}
use i_user_apps.Sysdeps.Files.{at_offset, read_file}
use i_user_apps.Sysdeps.Files.Offsets.{IsSeekable, offset_of, answer, at_offset-keeps_offset}
use i_user_apps.Sysdeps.Files.Closed.{read_file-closed}
use i_user_apps.Sysdeps.Directory.{read_entries, find_dir_stream_by_fd}
use i_user_apps.Sysdeps.Directory.Records.{IsEntry, dirents, read_dirents}
use i_user_apps.Sysdeps.Directory.Walk.{read_all, read_dirents-read_all}
use i_user_apps.Sysdeps.Directory.Stale.{IsRead, read_entries-dup2_fd}
use i_user_apps.Sysdeps.Ioctl.{
  FdField, Outcome, ioctl_buffer, fields_of, is_execbuffer, load, store, store_bytes, slot_value,
}
use i_user_apps.Sysdeps.Ioctl.Restored.{ioctl_buffer-restores}
use i_user_apps.Sysdeps.Messages.{register_passed}
use i_user_apps.Sysdeps.Messages.Passed.{Ends, register_passed-Ends}
use i_user_apps.Sysdeps.Poll.{watch_fds}
use i_user_apps.Sysdeps.Poll.Select.{Watches, watch_fds-Watches}
use i_user_apps.Sysdeps.Sockets.{is_answer, answer_or, take_answer, wait_connected}
use i_user_apps.Sysdeps.Sockets.Connect.{Waits, wait_connected-Waits}

abbrev abi : Abi
abi = record {
  eagain = 11;
  eintr = 4;
  eopnotsupp = 95;
  f_dupfd = 0;
  f_dupfd_cloexec = 1030;
  f_getfl = 3;
  o_nonblock = 2048;
  pollout = 4;
  pollerr_hup = 24;
  sol_socket = 1;
  so_type = 3;
  so_error = 4;
  sock_dgram = 2;
  map_anonymous = 32;
  symlink_nofollow = 256;
}

-- A kernel that grants each call, with one result.
abbrev granting_kernel : Log → Call → Reply
granting_kernel log call = record { ret = 4096; bytes = []; words = 40 ∷ 41 ∷ []; entries = [] }

abbrev small_entry : KernelEntry
small_entry = record { name = 97 ∷ 98 ∷ []; inode = 12; type = 1 }

-- The stream of descriptor 4, which is read.
abbrev small_stream : DirStream
small_stream = record {
  in_use = true;
  loaded = true;
  from_fd = true;
  owner_fd = 4;
  cursor = 0;
  path = 47 ∷ [];
  entries = small_entry ∷ small_entry ∷ [];
}

-- The descriptor 3 is free.
abbrev small_fds : List ℕ
small_fds = 0 ∷ 1 ∷ 2 ∷ 0 ∷ 7 ∷ []

abbrev small : Process
small = record {
  kernel = granting_kernel;
  abi = abi;
  calls = [];
  fds = small_fds;
  dirs = small_stream ∷ [];
  umask = 18;
}

-- As the source's table at the start, with the descriptor 4 taken.
abbrev full_fds : List ℕ
full_fds = 0 ∷ 1 ∷ 2 ∷ 0 ∷ 7 ∷ replicate 251 0

abbrev started : Process
started = record small { fds = full_fds }

unused-handles : (n : ℕ) → All (λ handle. handle ≢ minus_one) (replicate n 0)
unused-handles zero = tt
unused-handles (suc n) = ((λ e. omega (arith, e)), unused-handles n)

full_fds-IsTable : IsTable full_fds
full_fds-IsTable = record {
  size = refl;
  handles = (
    (λ e. omega (arith, e)),
    (
      (λ e. omega (arith, e)),
      (
        (λ e. omega (arith, e)),
        ((λ e. omega (arith, e)), ((λ e. omega (arith, e)), unused-handles 251)),
      ),
    ),
  );
}

register_fd_min-TakesLeast_example :
    TakesLeast 9 4 full_fds (register_fd_min 9 4 full_fds).0 (register_fd_min 9 4 full_fds).1
register_fd_min-TakesLeast_example =
    register_fd_min-TakesLeast 9 4 full_fds full_fds-IsTable (omega arith) (omega arith)

obtain-Kept_example :
    Kept 4096 3 (called started (Call.sys_open (47 ∷ []) 0 0)) (open_file (47 ∷ []) 0 0 started)
unfolding sc_error
obtain-Kept_example =
    obtain-Kept started (Call.sys_open (47 ∷ []) 0 0) 3 (open_file (47 ∷ []) 0 0)
      (by_open (47 ∷ []) 0 0) full_fds-IsTable (omega arith) (omega arith) refl

-- A copy of descriptor 4 from 0 on is made of descriptor 0.
fcntl_fd-overwrites_example :
    let (result, after) = fcntl_fd 4 0 0 started in
    (instantos_fd_handle full_fds 0 ≡ 0)
    × (result ≡ ok 0)
    × (instantos_fd_handle after.fds 0 ≡ 4096)
    × (after.calls ≡ (called started (Call.sys_fcntl 7 0 0)).calls)
unfolding sc_error handle_for_fd called
fcntl_fd-overwrites_example = fcntl_fd-overwrites started 4 0 0 refl refl (omega arith) refl refl

small_fds-only_free : (k : ℕ) → 3 ≤ k → k ≢ 3 → get_elem? small_fds k ≢ some 0
small_fds-only_free zero h other e = omega (arith, h)
small_fds-only_free (suc zero) h other e = omega (arith, h)
small_fds-only_free (suc (suc zero)) h other e = omega (arith, h)
small_fds-only_free (suc (suc (suc zero))) h other e = other refl
small_fds-only_free (suc (suc (suc (suc zero)))) h other e = omega (arith, some_injective 7 0 e)
small_fds-only_free (suc (suc (suc (suc (suc k))))) h other e = absurd cc

pipe_fds-leaks_example :
    pipe_fds small ≡ (err Error.emfile, called (called small Call.sys_pipe) (Call.sys_close 40))
unfolding sc_error
pipe_fds-leaks_example =
    pipe_fds-leaks small 3 (record { above = omega arith; free = refl; only = small_fds-only_free })
      refl (λ e. omega (arith, e))

join_path-eq-take_example :
    join_path (47 ∷ 97 ∷ []) (98 ∷ [])
    ≡ take (out_size - 1) (as_directory (47 ∷ 97 ∷ []) ++ 98 ∷ [])
join_path-eq-take_example = join_path-eq-take (47 ∷ 97 ∷ []) (98 ∷ [])

-- A kernel that seeks.
abbrev seek_result : Log → Call → ℕ
seek_result log (Call.sys_seek handle offset zero) = offset
seek_result log (Call.sys_seek handle offset (suc whence)) = offset_of handle log
seek_result log call = 3

abbrev seeking_kernel : Log → Call → Reply
seeking_kernel log call = record {
  ret = seek_result log call;
  bytes = 97 ∷ [];
  words = [];
  entries = [];
}

abbrev seeking : Process
seeking = record small { kernel = seeking_kernel }

seeking-IsSeekable : IsSeekable seeking_kernel 7
seeking-IsSeekable = record { tells = λ log. refl; goes = λ log offset h. refl }

at_offset-keeps_offset_example :
    let (result, after) = at_offset 7 100 (Call.sys_read 7 8) seeking in
    (offset_of 7 after.calls ≡ 0)
    × (log : Log) × (offset_of 7 log ≡ 100)
    × (result ≡ answer (seeking_kernel log (Call.sys_read 7 8)))
unfolding offset_of
at_offset-keeps_offset_example =
    at_offset-keeps_offset seeking 7 100 (Call.sys_read 7 8) seeking-IsSeekable (omega arith)
      (omega arith)

read_file-closed_example :
    (instantos_fd_handle small_fds 3 ≡ minus_one)
    × ((read_file 3 8 small).1 ≡ called small (Call.sys_read 0 8))
read_file-closed_example = read_file-closed small 3 8 (omega arith) (omega arith) refl

small_entry-IsEntry : IsEntry small_entry
small_entry-IsEntry = record {
  name_short = omega arith;
  name_bytes = ((λ e. omega (arith, e)), ((λ e. omega (arith, e)), tt));
  inode_small = omega arith;
}

read_dirents-read_all_example :
    read_dirents 2 (read_all 2 small_stream 280) ≡ dirents (small_entry ∷ small_entry ∷ []) 0
read_dirents-read_all_example =
    read_dirents-read_all small_stream 280 2 2 (small_entry-IsEntry, (small_entry-IsEntry, tt)) refl
      (omega arith) (omega arith) (omega arith) (omega arith)

small-IsRead : IsRead (small_stream ∷ []) 4 0
unfolding find_dir_stream_by_fd
small-IsRead = record { real = refl; owned = refl; loaded = refl }

read_entries-dup2_fd_example :
    (read_entries 4 280 (dup2_fd 1 4 small).1).0 ≡ (read_entries 4 280 small).0
read_entries-dup2_fd_example = read_entries-dup2_fd small 1 4 0 280 small-IsRead

watch_fds-Watches_example :
    Watches small_fds
      (some (λ fd. fd == 1))
      none
      3
      0
      0
      (watch_fds small_fds (some (λ fd. fd == 1)) none 3 0 0)
watch_fds-Watches_example =
    watch_fds-Watches small_fds (some (λ fd. fd == 1)) none 3 0 0 (omega arith)

-- A kernel whose first poll is interrupted.
abbrev late_kernel : Log → Call → Reply
late_kernel [] call = record { ret = minus_one - 3; bytes = []; words = []; entries = [] }
late_kernel (done ∷ log) call = record { ret = 1; bytes = []; words = 4 ∷ []; entries = [] }

abbrev late : Process
late = record small { kernel = late_kernel }

-- The wait of at most two polls, of which the first one is interrupted.
wait_connected-Waits_example : Waits abi 7 2 late (wait_connected 2 abi 7 late)
wait_connected-Waits_example = wait_connected-Waits 2 abi 7 late

late_connected : (wait_connected 2 abi 7 late).0 ≡ ok (some tt)
unfolding wait_connected answer_or take_answer is_answer sc_error check syscall
late_connected = refl

register_passed-Ends_example : Ends (50 ∷ 51 ∷ []) small (register_passed (50 ∷ 51 ∷ []) small)
register_passed-Ends_example = register_passed-Ends (50 ∷ 51 ∷ []) small

-- A kernel that gives the bytes back.
abbrev echo_kernel : Log → Call → Reply
echo_kernel log (Call.sys_ioctl_buffer handle request buffer) = record {
  ret = 0;
  bytes = buffer;
  words = [];
  entries = [];
}
echo_kernel log call = record { ret = 0; bytes = []; words = []; entries = [] }

abbrev echo : Process
echo = record small { kernel = echo_kernel }

-- The descriptor 4 in the structure of `DRM_IOCTL_PRIME_FD_TO_HANDLE`.
abbrev small_struct : List ℕ
small_struct = 9 ∷ 9 ∷ 9 ∷ 9 ∷ 9 ∷ 9 ∷ 9 ∷ 9 ∷ 4 ∷ 0 ∷ 0 ∷ 0 ∷ []

abbrev in_field : FdField
in_field = record { type = 100; nr = 0x2e; offset = 8; out = false }

ioctl_buffer-restores_example :
    (out : Outcome) × (ioctl_buffer 7 0x642e small_struct echo ≡ (
      ok out,
      called echo (
          Call.sys_ioctl_buffer 7 0x642e
            (store 4 8 (slot_value (slot_for_fd small_fds 4)) small_struct)),
    ))
    × (load 4 8 out.buffer ≡ 4)
unfolding fields_of is_execbuffer load store store_bytes slot_value slot_for_fd handle_for_fd
ioctl_buffer-restores_example =
    ioctl_buffer-restores echo 7 0x642e small_struct in_field refl refl refl (omega arith)
      (omega arith)
