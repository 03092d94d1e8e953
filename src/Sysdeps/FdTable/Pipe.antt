-- ===== src/Sysdeps/FdTable/Pipe.antt =====
-- The pipe of sysdeps.cpp in outside/mlibc-sysdeps when the table of descriptors has room for one end.
use i_user_apps.Common.{
  ℕ, zero, suc, ◌≤◌, ◌≡◌, refl, sym, ap, ◌∙◌, ◌≢◌, inl, inr, Option, none, some, List, [], ◌∷◌,
  arith, ◌==◌, Bool-cases, get_elem?, get_or, set, get_elem?-some, get_elem?-set,
  get_elem?-set_other, some_injective,
}
use i_user_apps.Sysdeps.Kernel.{Process, Call, err, Error, syscall, sc_error, reply_to}
use i_user_apps.Sysdeps.FdTable.{
  take_entry, register_fd, on_fds, set_fd, close_end, keep_pipe, pipe_fds,
}
use i_user_apps.Sysdeps.FdTable.Lowest.{Registered, registered, full, register_fd_min-Registered}
use i_user_apps.Sysdeps.FdTable.Keep.{called, ask-granted}

-- `r` is the one entry that a new descriptor can take.
pub record IsOnlyFree (fds : List ℕ) (r : ℕ) : Type 0 where
  pub above : 3 ≤ r
  pub free : get_elem? fds r ≡ some 0
  pub only : (k : ℕ) → 3 ≤ k → k ≢ r → get_elem? fds k ≢ some 0

only_free-Registered :
    (handle r : ℕ) (fds : List ℕ)
    → IsOnlyFree fds r
    → {o : Option ℕ} {new : List ℕ} → Registered handle 3 fds o new
    → take_entry handle fds (some r) ≡ (o, new)
unfolding take_entry
only_free-Registered handle r fds free_r (registered fd above free least) =
    elim (Bool-cases (fd == r)) [
      | inl same ↦
          let e : fd ≡ r = ground (arith, same) in ap (λ n. take_entry handle fds (some n)) (sym e)
      | inr other ↦ absurd (free_r.only fd above (λ e. absurd (ground (arith, other, e))) free)
    ]
only_free-Registered handle r fds free_r (full none_free) =
    absurd (none_free r free_r.above free_r.free)

register_fd-only_free :
    (handle r : ℕ) (fds : List ℕ)
    → IsOnlyFree fds r
    → register_fd handle fds ≡ take_entry handle fds (some r)
unfolding register_fd
register_fd-only_free handle r fds free_r = sym (
    only_free-Registered handle r fds free_r
      (register_fd_min-Registered handle 3 fds (omega arith)))

no_free-Registered :
    (handle : ℕ) (fds : List ℕ)
    → ((k : ℕ) → 3 ≤ k → get_elem? fds k ≢ some 0)
    → {o : Option ℕ} {new : List ℕ} → Registered handle 3 fds o new
    → take_entry handle fds none ≡ (o, new)
unfolding take_entry
no_free-Registered handle fds taken (registered fd above free least) = absurd (taken fd above free)
no_free-Registered handle fds taken (full none_free) = refl

register_fd-full :
    (handle : ℕ) (fds : List ℕ)
    → ((k : ℕ) → 3 ≤ k → get_elem? fds k ≢ some 0)
    → register_fd handle fds ≡ take_entry handle fds none
unfolding register_fd
register_fd-full handle fds taken =
    sym
      (no_free-Registered handle fds taken (register_fd_min-Registered handle 3 fds (omega arith)))

-- The first end takes the free entry, so the second one finds none.
taken_after :
    (fds : List ℕ) (r handle : ℕ)
    → IsOnlyFree fds r
    → handle ≢ 0
    → (k : ℕ) → 3 ≤ k
    → get_elem? (set fds r handle) k ≢ some 0
taken_after fds r handle free_r used k above e = elim (Bool-cases (k == r)) [
  | inl same ↦
      let k-r : k ≡ r = ground (arith, same) in
      let stored : get_elem? (set fds r handle) k ≡ some handle =
        rw k-r (get_elem?-set fds r handle (get_elem?-some fds r 0 free_r.free)) in
      used (some_injective handle 0 (sym stored ∙ e))
  | inr other ↦
      let apart : k ≢ r = λ k-r. absurd (ground (arith, other, k-r)) in
      free_r.only k above apart (sym (get_elem?-set_other fds r k handle apart) ∙ e)
]

set-undone :
    (fds : List ℕ) (r handle : ℕ) → get_elem? fds r ≡ some 0 → set (set fds r handle) r 0 ≡ fds
set-undone [] r handle e = refl
set-undone (h ∷ fds) zero handle e = ap (λ n. n ∷ fds) (sym (some_injective h 0 e))
set-undone (h ∷ fds) (suc r) handle e = ap (λ t. h ∷ t) (set-undone fds r handle e)

-- With one entry left the pipe fails with EMFILE and the table is as before; the process made the
-- pipe, closed its first end, and nothing more: the handle of the second end is neither kept nor closed.
pub pipe_fds-leaks :
    (p : Process) (r : ℕ)
    → IsOnlyFree p.fds r
    → sc_error (reply_to p Call.sys_pipe).ret ≡ 0
    → let first = get_or (reply_to p Call.sys_pipe).words 0 0 in
      first ≢ 0
      → pipe_fds p ≡ (err Error.emfile, called (called p Call.sys_pipe) (Call.sys_close first))
unfolding pipe_fds on_fds close_end keep_pipe set_fd called syscall take_entry
pipe_fds-leaks p r free_r e used =
    let words = (reply_to p Call.sys_pipe).words in
    let first = get_or words 0 0 in
    let second = get_or words 1 0 in
    rw (
      pipe_fds,
      ask-granted Call.sys_pipe p e,
      register_fd-only_free first r p.fds free_r,
      register_fd-full second (set p.fds r first) (taken_after p.fds r first free_r used),
      set-undone p.fds r first free_r.free,
    )
