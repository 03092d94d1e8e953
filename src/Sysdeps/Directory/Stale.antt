-- ===== src/Sysdeps/Directory/Stale.antt =====
-- dup2 in sysdeps.cpp of outside/mlibc-sysdeps over a descriptor that a directory is read from.
use i_user_apps.Common.{
  ℕ, ◌≡◌, sym, ap, ◌∙◌, subst, inl, inr, true, false, some, List, ltb, ◌==◌, Bool-cases, get_or,
}
use i_user_apps.Sysdeps.Kernel.{
  Process, ok, syscall, check, ask, sc_error, reply_to, DirStream, is_negative64,
}
use i_user_apps.Sysdeps.FdTable.{handle_for_fd, open_handle, dup2_fd, dup2_call, on_fds}
use i_user_apps.Sysdeps.Directory.{
  is_dir_handle, find_dir_stream_by_fd, owned_slot, dir_slot, stream_at, load_stream, read_stream,
  read_entries, on_stream, no_stream,
}

-- A descriptor that owns a stream which was read before.
pub record IsRead (dirs : List DirStream) (fd slot : ℕ) : Type 0 where
  pub real : is_dir_handle fd ≡ false
  pub owned : find_dir_stream_by_fd dirs 0 fd ≡ some slot
  pub loaded : (get_or dirs slot no_stream).loaded ≡ true

-- Such a descriptor is read from its stream.
read_entries-IsRead :
    (p : Process) (fd slot max_size : ℕ)
    → IsRead p.dirs fd slot
    → (read_entries fd max_size p).0 ≡ ok (read_stream (get_or p.dirs slot no_stream) max_size).0
unfolding read_entries dir_slot owned_slot stream_at load_stream on_stream
read_entries-IsRead p fd slot max_size h = rw (read_entries, h.real, h.owned, h.loaded)

dup2_fd-dirs : (p : Process) (fd new_fd : ℕ) → (dup2_fd fd new_fd p).1.dirs ≡ p.dirs
unfolding dup2_fd open_handle ask check syscall on_fds
dup2_fd-dirs p fd new_fd = elim (Bool-cases (is_negative64 (handle_for_fd p.fds fd))) [
  | inl closed ↦ rw (dup2_fd, closed)
  | inr handled ↦ elim (Bool-cases (ltb new_fd 256)) [
    | inl inside ↦
        let call = dup2_call (handle_for_fd p.fds fd) (get_or p.fds new_fd 0) new_fd in
        elim (Bool-cases (sc_error (reply_to p call).ret == 0)) [
          | inl fine ↦ rw (dup2_fd, handled, inside, fine)
          | inr failed ↦ rw (dup2_fd, handled, inside, failed)
        ]
    | inr outside ↦ rw (dup2_fd, handled, outside)
  ]
]

-- When a descriptor was made a copy of another one by dup2, the directory that was read from it before
-- is still what is read: the same bytes as without the dup2.
pub read_entries-dup2_fd :
    (p : Process) (fd new_fd slot max_size : ℕ)
    → IsRead p.dirs new_fd slot
    → (read_entries new_fd max_size (dup2_fd fd new_fd p).1).0 ≡ (read_entries new_fd max_size p).0
read_entries-dup2_fd p fd new_fd slot max_size h =
    let dirs = dup2_fd-dirs p fd new_fd in
    let still = subst (λ d. IsRead d new_fd slot) (sym dirs) h in
    read_entries-IsRead (dup2_fd fd new_fd p).1 new_fd slot max_size still
    ∙ ap (λ d. ok (read_stream (get_or d slot no_stream) max_size).0) dirs
    ∙ sym (read_entries-IsRead p new_fd slot max_size h)
