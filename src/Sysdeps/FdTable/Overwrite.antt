-- ===== src/Sysdeps/FdTable/Overwrite.antt =====
-- What fcntl of sysdeps.cpp in outside/mlibc-sysdeps does to a standard descriptor whose handle is 0.
use i_user_apps.Common.{
  ℕ, zero, suc, ◌+◌, ◌%◌, ◌<◌, ◌≡◌, refl, subst, true, false, ◌||◌, some, List, [], ◌∷◌, arith, leb,
  ◌==◌, get_elem?, set, get_elem?-some, get_elem?-set, u32_mod,
}
use i_user_apps.Sysdeps.Kernel.{Process, Call, ok, sc_error, reply_to, is_negative64}
use i_user_apps.Sysdeps.FdTable.{
  handle_for_fd, instantos_fd_handle, open_handle, free_from, take_entry, register_fd_min, on_fds,
  keep_or_close, keep_handle, fcntl_result, fcntl_fd, is_negative32,
}
use i_user_apps.Sysdeps.FdTable.Keep.{called, ask-granted}
use i_user_apps.Sysdeps.FdTable.Unused.{get_or-some}

-- The search stops at once where the entry at the minimum is 0.
free_from-here :
    (fds : List ℕ) (first i : ℕ)
    → get_elem? fds i ≡ some 0
    → free_from fds first (first + i) ≡ some (first + i)
unfolding free_from
free_from-here [] first i e = absurd cc
free_from-here (h ∷ fds) first zero e = let unused : h ≡ 0 = cc in ground (arith, unused)
free_from-here (h ∷ fds) first (suc i) e =
    let moved : first + suc i ≡ first + 1 + i = omega arith in
    let early : leb (first + 1 + i) first ≡ false = ground arith in
    rw (moved, early) (free_from-here fds (first + 1) i e)

register_fd_min-here :
    (handle k : ℕ) (fds : List ℕ)
    → k < 3
    → get_elem? fds k ≡ some 0
    → register_fd_min handle k fds ≡ (some k, set fds k handle)
unfolding register_fd_min take_entry
register_fd_min-here handle k fds standard e =
    let positive : is_negative32 k ≡ false = ground (arith, standard) in
    let start : 0 + k ≡ k = omega arith in
    let here : free_from fds 0 k ≡ some k =
      subst (λ n. free_from fds 0 n ≡ some n) start (free_from-here fds 0 k e) in
    rw (register_fd_min, positive, here)

standard_handle :
    (fds : List ℕ) (k handle : ℕ)
    → k < 3
    → get_elem? fds k ≡ some handle
    → instantos_fd_handle fds k ≡ handle
unfolding instantos_fd_handle
standard_handle fds k handle standard e =
    let stored = get_or-some fds k handle e in ground (arith, stored, standard)

fcntl_fd-here :
    (p : Process) (fd request arg : ℕ)
    → is_negative64 (handle_for_fd p.fds fd) ≡ false
    → (request == p.abi.f_dupfd || request == p.abi.f_dupfd_cloexec) ≡ true
    → arg % u32_mod < 3
    → get_elem? p.fds (arg % u32_mod) ≡ some 0
    → let call = Call.sys_fcntl (handle_for_fd p.fds fd) request arg in
      sc_error (reply_to p call).ret ≡ 0
      → fcntl_fd fd request arg p ≡ (
        ok (arg % u32_mod),
        record (called p call) { fds = set p.fds (arg % u32_mod) (reply_to p call).ret },
      )
unfolding fcntl_fd fcntl_result open_handle keep_handle keep_or_close on_fds called
fcntl_fd-here p fd request arg usable copies standard zero_entry granted =
    let call = Call.sys_fcntl (handle_for_fd p.fds fd) request arg in
    rw (
      fcntl_fd,
      usable,
      ask-granted call p granted,
      copies,
      register_fd_min-here (reply_to p call).ret (arg % u32_mod) p.fds standard zero_entry,
    )

-- F_DUPFD on a table whose entry at `target`, the lower half of its argument and one of the standard
-- descriptors, is 0, the handle of the standard input: `target` is open with handle 0, and yet it is
-- what the call gives out; it then stands for the new handle, and no close is asked for.
pub fcntl_fd-overwrites :
    (p : Process) (fd request arg : ℕ)
    → is_negative64 (handle_for_fd p.fds fd) ≡ false
    → (request == p.abi.f_dupfd || request == p.abi.f_dupfd_cloexec) ≡ true
    → arg % u32_mod < 3
    → get_elem? p.fds (arg % u32_mod) ≡ some 0
    → let call = Call.sys_fcntl (handle_for_fd p.fds fd) request arg in
      sc_error (reply_to p call).ret ≡ 0
      → let (result, after) = fcntl_fd fd request arg p in
        (instantos_fd_handle p.fds (arg % u32_mod) ≡ 0)
        × (result ≡ ok (arg % u32_mod))
        × (instantos_fd_handle after.fds (arg % u32_mod) ≡ (reply_to p call).ret)
        × (after.calls ≡ (call, reply_to p call) ∷ p.calls)
unfolding called
fcntl_fd-overwrites p fd request arg usable copies standard zero_entry granted =
    let call = Call.sys_fcntl (handle_for_fd p.fds fd) request arg in
    let k = arg % u32_mod in
    let inside = get_elem?-some p.fds k 0 zero_entry in
    rw (fcntl_fd-here p fd request arg usable copies standard zero_entry granted) (
      standard_handle p.fds k 0 standard zero_entry,
      refl,
      standard_handle (set p.fds k (reply_to p call).ret) k (reply_to p call).ret standard
          (get_elem?-set p.fds k (reply_to p call).ret inside),
      refl,
    )
