-- ===== src/Sysdeps/Files/Closed.antt =====
-- What sysdeps.cpp of outside/mlibc-sysdeps does with a descriptor that is not open.
use i_user_apps.Common.{
  ℕ, ◌≤◌, ◌<◌, ◌≡◌, refl, inl, inr, true, arith, ltb, ◌==◌, Bool-cases, get_or,
}
use i_user_apps.Sysdeps.Kernel.{Process, Call, syscall, check, ask, sc_error, reply_to, minus_one}
use i_user_apps.Sysdeps.FdTable.Keep.{called}
use i_user_apps.Sysdeps.FdTable.{max_fd, handle_for_fd, open_handle, instantos_fd_handle}
use i_user_apps.Sysdeps.Files.{read_file}

-- A descriptor from 3 on that is not in use has no handle for the windows' calls, but reading it is
-- not refused: the kernel is asked to read handle 0, the standard input.
pub read_file-closed :
    (p : Process) (fd size : ℕ)
    → 3 ≤ fd
    → fd < 256
    → get_or p.fds fd 0 ≡ 0
    → (instantos_fd_handle p.fds fd ≡ minus_one)
      × ((read_file fd size p).1 ≡ called p (Call.sys_read 0 size))
unfolding read_file handle_for_fd open_handle instantos_fd_handle ask check syscall called
read_file-closed p fd size above below unused =
    let inside : ltb fd max_fd ≡ true = ground (arith, below) in
    let zero_entry : (get_or p.fds fd 0 == 0) ≡ true = ground (arith, unused) in
    let beyond : ltb 2 fd ≡ true = ground (arith, above) in
    (
      rw (inside, zero_entry, beyond) refl,
      elim (Bool-cases (sc_error (reply_to p (Call.sys_read 0 size)).ret == 0)) [
        | inl fine ↦ rw (read_file, inside, unused, fine)
        | inr failed ↦ rw (read_file, inside, unused, failed)
      ],
    )
