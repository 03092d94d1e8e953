-- ===== src/Sysdeps/FdTable/Unused.antt =====
-- Which descriptor register_fd_min of sysdeps.cpp in outside/mlibc-sysdeps takes, by what
-- instantos_fd_handle says is open.
use i_user_apps.Common.{
  ℕ, zero, suc, ◌^◌, ◌≤◌, ◌<◌, ◌≡◌, ap, ◌∙◌, ◌≢◌, Option, none, some, List, [], ◌∷◌, arith, length,
  get_elem?, get_or, set, All, get_elem?-some, get_elem?-in, get_elem?-set, get_elem?-set_other,
  All-get_elem?,
}
use i_user_apps.Sysdeps.Kernel.{minus_one}
use i_user_apps.Sysdeps.FdTable.{max_fd, instantos_fd_handle, register_fd_min}
use i_user_apps.Sysdeps.FdTable.Lowest.{Registered, registered, full, register_fd_min-Registered}

-- A descriptor is open if it stands for a handle: the standard ones do whatever their entry is.
abbrev pub IsOpen : List ℕ → ℕ → Type 0
IsOpen fds fd = instantos_fd_handle fds fd ≢ minus_one

-- The table has all its entries, and none of them is -1, which is no handle.
pub record IsTable (fds : List ℕ) : Type 0 where
  pub size : length fds ≡ max_fd
  pub handles : All (λ handle. handle ≢ minus_one) fds

-- The rule of POSIX: a new descriptor is the least one from `min` on that is not open. It stands for
-- the handle, and no other entry changes; there is none only if all from `min` on are open.
pub data TakesLeast (handle min : ℕ) (fds : List ℕ) : Option ℕ → List ℕ → Type 0 where
  taken :
      (fd : ℕ) (new : List ℕ)
      → min ≤ fd
      → fd < max_fd
      → ¬ IsOpen fds fd
      → ((k : ℕ) → min ≤ k → k < fd → IsOpen fds k)
      → get_elem? new fd ≡ some handle
      → ((k : ℕ) → k ≢ fd → get_elem? new k ≡ get_elem? fds k)
      → TakesLeast handle min fds (some fd) new
  all_open : ((k : ℕ) → min ≤ k → k < max_fd → IsOpen fds k) → TakesLeast handle min fds none fds

pub get_or-some : (xs : List ℕ) (i a : ℕ) → get_elem? xs i ≡ some a → get_or xs i 0 ≡ a
get_or-some [] i a e = absurd cc
get_or-some (x ∷ xs) zero a e = cc
get_or-some (x ∷ xs) (suc i) a e = get_or-some xs i a e

-- From 3 on, an entry 0 is that of a descriptor that is not open.
zero-not_IsOpen : (fds : List ℕ) (fd : ℕ) → 3 ≤ fd → get_elem? fds fd ≡ some 0 → ¬ IsOpen fds fd
unfolding instantos_fd_handle
zero-not_IsOpen fds fd above free is_open =
    let unused = get_or-some fds fd 0 free in is_open (ground (arith, unused, above))

used-IsOpen :
    (fds : List ℕ) (fd : ℕ) → IsTable fds → fd < max_fd → get_elem? fds fd ≢ some 0 → IsOpen fds fd
unfolding instantos_fd_handle
used-IsOpen fds fd table inside used e =
    let (handle, at) = get_elem?-in fds fd (omega (arith, table.size)) in
    let stored = get_or-some fds fd handle at in
    let real = All-get_elem? (λ h. h ≢ minus_one) fds fd handle table.handles at in
    let something : handle ≢ 0 = λ is_zero. used (at ∙ ap some is_zero) in
    ground (arith, e, stored, real, something, inside)

Registered-TakesLeast :
    (handle min : ℕ) (fds : List ℕ)
    → IsTable fds
    → 3 ≤ min
    → {o : Option ℕ} {new : List ℕ} → Registered handle min fds o new
    → TakesLeast handle min fds o new
Registered-TakesLeast handle min fds table above (registered fd from free least) =
    let inside = get_elem?-some fds fd 0 free in
    taken fd (set fds fd handle) from (omega (arith, inside, table.size))
      (zero-not_IsOpen fds fd (omega (arith, above, from)) free)
      (λ k le lt. used-IsOpen fds k table (omega (arith, lt, inside, table.size)) (least k le lt))
      (get_elem?-set fds fd handle inside) (λ k other. get_elem?-set_other fds fd k handle other)
Registered-TakesLeast handle min fds table above (full none_free) =
    all_open (λ k le lt. used-IsOpen fds k table lt (none_free k le))

-- From a minimum of at least 3, a handle that is registered gets the least descriptor from the minimum
-- on that is not open, and no other entry changes; none is given, and the table stays as it is, only
-- if all of them are open. The table has 256 entries, none of them -1.
pub register_fd_min-TakesLeast :
    (handle min : ℕ) (fds : List ℕ)
    → IsTable fds
    → 3 ≤ min
    → min < 2 ^ 31
    → let (o, new) = register_fd_min handle min fds in TakesLeast handle min fds o new
register_fd_min-TakesLeast handle min fds table above small =
    Registered-TakesLeast handle min fds table above
      (register_fd_min-Registered handle min fds small)
