-- ===== src/Sysdeps/Messages/Passed.antt =====
-- The descriptors and the buffers of a message that is received, in sysdeps.cpp of
-- outside/mlibc-sysdeps.
use i_user_apps.Common.{drop}
use i_user_apps.Common.{
  ℕ, zero, suc, ◌+◌, ◌≤◌, ◌≡◌, refl, ap, ◌∙◌, ◌≢◌, Bool, true, false, Option, none, some, List, [],
  ◌∷◌, ◌++◌, arith, get_elem?, set, take,
}
use i_user_apps.Sysdeps.Kernel.{
  Process, Call, Action, Result, ok, pure, ◌>>=◌, ◌>>◌, continue, syscall,
}
use i_user_apps.Sysdeps.FdTable.{register_fd, on_fds}
use i_user_apps.Sysdeps.FdTable.Lowest.{Registered, registered, full, register_fd_min-Registered}
use i_user_apps.Sysdeps.FdTable.Keep.{called}
use i_user_apps.Sysdeps.Paths.Joined.{take_nil}
use i_user_apps.Sysdeps.Messages.{
  register_passed, close_passed, store_passed, scatter, gather, iov_total,
}

-- What becomes of each handle, in turn: it gets the first descriptor from 3 on whose entry is 0, or
-- there is none, it is closed, and the result says that something was cut off.
pub data Accounted : List ℕ → Process → List ℕ × Bool → Process → Type 0 where
  all_done : (p : Process) → Accounted [] p ([], false) p
  stored :
      (handle fd : ℕ) (handles new fds : List ℕ) (truncated : Bool) (p q : Process)
      → Registered handle 3 p.fds (some fd) new
      → Accounted handles (record p { fds = new }) (fds, truncated) q
      → Accounted (handle ∷ handles) p (fd ∷ fds, truncated) q
  closed :
      (handle : ℕ) (handles fds : List ℕ) (truncated : Bool) (p q : Process)
      → ((k : ℕ) → 3 ≤ k → get_elem? p.fds k ≢ some 0)
      → Accounted handles (called p (Call.sys_close handle)) (fds, truncated) q
      → Accounted (handle ∷ handles) p (fds, true) q

-- An action that ends well, and how.
pub data Ends (handles : List ℕ) (p : Process) : Result (List ℕ × Bool) × Process → Type 0 where
  ends :
      (fds : List ℕ) (truncated : Bool) (q : Process)
      → Accounted handles p (fds, truncated) q
      → Ends handles p (ok (fds, truncated), q)

rest_of : ℕ → List ℕ → Option ℕ → Action (List ℕ × Bool)
rest_of handle handles fd = do
  close_passed handle fd
  rest ← register_passed handles
  pure (store_passed handle fd rest)

keep_stored :
    (handle fd : ℕ) (handles new : List ℕ) (p : Process) {out : Result (List ℕ × Bool) × Process}
    → Registered handle 3 p.fds (some fd) new
    → Ends handles (record p { fds = new }) out
    → Ends (handle ∷ handles) p (continue out (λ rest. pure (store_passed handle (some fd) rest)))
unfolding store_passed
keep_stored handle fd handles new p r (ends fds truncated q a) =
    ends (fd ∷ fds) truncated q (stored handle fd handles new fds truncated p q r a)

keep_closed :
    (handle : ℕ) (handles : List ℕ) (p : Process) {out : Result (List ℕ × Bool) × Process}
    → ((k : ℕ) → 3 ≤ k → get_elem? p.fds k ≢ some 0)
    → Ends handles (called p (Call.sys_close handle)) out
    → Ends (handle ∷ handles) p (continue out (λ rest. pure (store_passed handle none rest)))
unfolding store_passed
keep_closed handle handles p taken (ends fds truncated q a) =
    ends fds true q (closed handle handles fds truncated p q taken a)

rest_of-Ends :
    (handle : ℕ) (handles : List ℕ) (p : Process) {o : Option ℕ} {new : List ℕ}
    → Registered handle 3 p.fds o new
    → ((q : Process) → Ends handles q (register_passed handles q))
    → Ends (handle ∷ handles) p (rest_of handle handles o (record p { fds = new }))
unfolding rest_of close_passed syscall called
rest_of-Ends handle handles p (registered fd above free least) rest =
    keep_stored handle fd handles (set p.fds fd handle) p (registered fd above free least)
      (rest (record p { fds = set p.fds fd handle }))
rest_of-Ends handle handles p (full taken) rest =
    keep_closed handle handles p taken (rest (called p (Call.sys_close handle)))

-- All handles that come with a message are accounted for, and none of them makes the call fail.
pub register_passed-Ends :
    (handles : List ℕ) (p : Process) → Ends handles p (register_passed handles p)
unfolding register_passed rest_of on_fds register_fd
register_passed-Ends [] p = ends [] false p (all_done p)
register_passed-Ends (handle ∷ handles) p =
    rest_of-Ends handle handles p (register_fd_min-Registered handle 3 p.fds (omega arith))
      (register_passed-Ends handles)

-- The buffers of a message hold, one after the other, as much of what was received as they have room
-- for.
pub gather-scatter :
    (sizes bytes : List ℕ) → gather (scatter sizes bytes) ≡ take (iov_total sizes) bytes
unfolding gather scatter iov_total
gather-scatter [] bytes = refl
gather-scatter (size ∷ sizes) bytes =
    ap (λ t. take size bytes ++ t) (gather-scatter sizes (drop size bytes))
    ∙ take-drop size (iov_total sizes) bytes
  where
    take-drop : (m n : ℕ) (xs : List ℕ) → take m xs ++ take n (drop m xs) ≡ take (m + n) xs
    take-drop zero n xs = let e : 0 + n ≡ n = omega arith in rw e
    take-drop (suc m) n [] = let e : suc m + n ≡ suc (m + n) = omega arith in rw e (take_nil n)
    take-drop (suc m) n (x ∷ xs) =
        let e : suc m + n ≡ suc (m + n) = omega arith in rw e (ap (λ t. x ∷ t) (take-drop m n xs))
