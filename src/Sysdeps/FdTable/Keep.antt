-- ===== src/Sysdeps/FdTable/Keep.antt =====
-- What becomes of the handles that the kernel gives to the calls that make descriptors, in sysdeps.cpp
-- of outside/mlibc-sysdeps.
use i_user_apps.Common.{
  ℕ, ◌%◌, ◌^◌, ◌≤◌, ◌<◌, ◌≡◌, true, false, ◌||◌, Option, none, some, List, ◌∷◌, ◌==◌, u32_mod,
}
use i_user_apps.Sysdeps.Kernel.{
  Process, Call, Action, Result, ok, err, Error, ◌>>=◌, syscall, check, ask, sc_error,
  is_negative64, reply_to,
}
use i_user_apps.Sysdeps.FdTable.{
  handle_for_fd, open_handle, on_fds, keep_or_close, keep_handle, open_file, dup_fd, socket_fd,
  accept_fd, fcntl_fd, fcntl_result,
}
use i_user_apps.Sysdeps.FdTable.Unused.{
  IsTable, TakesLeast, taken, all_open, register_fd_min-TakesLeast,
}

-- The process after a call.
unfoldable pub called : Process → Call → Process
called p call = record p { calls = (call, reply_to p call) ∷ p.calls }

-- A handle is in the table where the rule of POSIX wants it, or all descriptors are open and a close
-- was tried.
pub data Kept (handle min : ℕ) (p : Process) : Result ℕ × Process → Type 0 where
  in_table :
      (fd : ℕ) (new : List ℕ)
      → TakesLeast handle min p.fds (some fd) new
      → Kept handle min p (ok fd, record p { fds = new })
  no_room :
      TakesLeast handle min p.fds none p.fds
      → Kept handle min p (err Error.emfile, called p (Call.sys_close handle))

-- The operations that ask the kernel for one handle: their call, and the least descriptor they take.
pub data Obtains (p : Process) : Call → ℕ → Action ℕ → Type 0 where
  by_open :
      (path : List ℕ) (flags mode : ℕ)
      → Obtains p (Call.sys_open path flags mode) 3 (open_file path flags mode)
  by_socket :
      (family type protocol : ℕ)
      → Obtains p (Call.sys_socket family type protocol) 3 (socket_fd family type protocol)
  by_dup :
      (fd : ℕ)
      → is_negative64 (handle_for_fd p.fds fd) ≡ false
      → Obtains p (Call.sys_dup (handle_for_fd p.fds fd)) 3 (dup_fd fd)
  by_accept :
      (fd : ℕ)
      → is_negative64 (handle_for_fd p.fds fd) ≡ false
      → Obtains p (Call.sys_accept (handle_for_fd p.fds fd)) 3 (accept_fd fd)
  by_fcntl :
      (fd request arg : ℕ)
      → is_negative64 (handle_for_fd p.fds fd) ≡ false
      → (request == p.abi.f_dupfd || request == p.abi.f_dupfd_cloexec) ≡ true
      → Obtains p
          (Call.sys_fcntl (handle_for_fd p.fds fd) request arg)
          (arg % u32_mod)
          (fcntl_fd fd request arg)

keep_or_close-Kept :
    (handle min : ℕ) (p : Process) {o : Option ℕ} {new : List ℕ}
    → TakesLeast handle min p.fds o new
    → Kept handle min p (keep_or_close handle o (record p { fds = new }))
unfolding keep_or_close syscall called
keep_or_close-Kept handle min p (taken fd new from inside closed least at others) =
    in_table fd new (taken fd new from inside closed least at others)
keep_or_close-Kept handle min p (all_open full) = no_room (all_open full)

keep_handle-Kept :
    (handle min : ℕ) (p : Process)
    → IsTable p.fds
    → 3 ≤ min
    → min < 2 ^ 31
    → Kept handle min p (keep_handle handle min p)
unfolding keep_handle on_fds
keep_handle-Kept handle min p table above small =
    keep_or_close-Kept handle min p (register_fd_min-TakesLeast handle min p.fds table above small)

pub ask-granted :
    (call : Call) (p : Process)
    → sc_error (reply_to p call).ret ≡ 0
    → ask call p ≡ (ok (reply_to p call), called p call)
unfolding ask check syscall called
ask-granted call p e = rw (ask, e)

asked-Kept :
    (call : Call) (min : ℕ) (p : Process)
    → IsTable p.fds
    → 3 ≤ min
    → min < 2 ^ 31
    → sc_error (reply_to p call).ret ≡ 0
    → Kept (reply_to p call).ret min (called p call) ((ask call >>= λ r. keep_handle r.ret min) p)
unfolding called
asked-Kept call min p table above small e =
    rw (ask-granted call p e)
      (keep_handle-Kept (reply_to p call).ret min (called p call) table above small)

-- Whichever operation asked for it, a handle that the kernel gave without an error becomes the least
-- descriptor that is not open, from the least one that the operation takes, if that is at least 3; or
-- all of them are open, a close of the handle is tried, and the operation fails with EMFILE. The
-- table has 256 entries, none of them -1.
pub obtain-Kept :
    (p : Process) (call : Call) (min : ℕ) (operation : Action ℕ)
    → Obtains p call min operation
    → IsTable p.fds
    → 3 ≤ min
    → min < 2 ^ 31
    → sc_error (reply_to p call).ret ≡ 0
    → Kept (reply_to p call).ret min (called p call) (operation p)
unfolding open_file socket_fd dup_fd accept_fd fcntl_fd fcntl_result open_handle called
obtain-Kept p call min operation (by_open path flags mode) table above small e =
    asked-Kept call min p table above small e
obtain-Kept p call min operation (by_socket family type protocol) table above small e =
    asked-Kept call min p table above small e
obtain-Kept p call min operation (by_dup fd usable) table above small e =
    rw (dup_fd, usable) (asked-Kept call min p table above small e)
obtain-Kept p call min operation (by_accept fd usable) table above small e =
    rw (accept_fd, usable) (asked-Kept call min p table above small e)
obtain-Kept p call min operation (by_fcntl fd request arg usable copies) table above small e =
    rw (fcntl_fd, usable, ask-granted call p e, copies)
      (keep_handle-Kept (reply_to p call).ret min (called p call) table above small)
