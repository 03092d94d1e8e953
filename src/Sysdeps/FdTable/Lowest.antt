-- ===== src/Sysdeps/FdTable/Lowest.antt =====
-- register_fd_min of sysdeps.cpp in outside/mlibc-sysdeps and the entries of the table that are 0.
use i_user_apps.Common.{
  ℕ, zero, suc, ◌+◌, ◌^◌, ◌≤◌, ◌<◌, ◌≡◌, refl, sym, subst, ◌≢◌, inl, inr, false, ◌&&◌, Option, none,
  some, List, [], ◌∷◌, arith, leb, ◌==◌, Bool-cases, get_elem?, set, some_injective,
}
use i_user_apps.Sysdeps.FdTable.{free_from, take_entry, register_fd_min, is_negative32}

-- The first entry from `min` on that is 0 is taken, and only it changes.
pub data Registered (handle min : ℕ) (fds : List ℕ) : Option ℕ → List ℕ → Type 0 where
  registered :
      (fd : ℕ)
      → min ≤ fd
      → get_elem? fds fd ≡ some 0
      → ((k : ℕ) → min ≤ k → k < fd → get_elem? fds k ≢ some 0)
      → Registered handle min fds (some fd) (set fds fd handle)
  full : ((k : ℕ) → min ≤ k → get_elem? fds k ≢ some 0) → Registered handle min fds none fds

-- What the loop finds, with the entries from `first` on.
data Found (min first : ℕ) (fds : List ℕ) : Option ℕ → Type 0 where
  found :
      (i : ℕ)
      → min ≤ first + i
      → get_elem? fds i ≡ some 0
      → ((k : ℕ) → min ≤ first + k → k < i → get_elem? fds k ≢ some 0)
      → Found min first fds (some (first + i))
  missing : ((k : ℕ) → min ≤ first + k → get_elem? fds k ≢ some 0) → Found min first fds none

-- One entry that is not taken is passed over.
later-Found :
    (h : ℕ) (fds : List ℕ) (first min : ℕ) {r : Option ℕ}
    → ¬ (min ≤ first × (h ≡ 0))
    → Found min (first + 1) fds r
    → Found min first (h ∷ fds) r
later-Found h fds first min skip (found i above free least) =
    subst (λ n. Found min first (h ∷ fds) (some n)) (omega arith)
      (found (suc i) (omega (arith, above)) free earlier)
  where
    earlier : (k : ℕ) → min ≤ first + k → k < suc i → get_elem? (h ∷ fds) k ≢ some 0
    earlier zero le lt e = skip (omega (arith, le), some_injective h 0 e)
    earlier (suc k) le lt e = least k (omega (arith, le)) (omega (arith, lt)) e
later-Found h fds first min skip (missing none_free) = missing nowhere
  where
    nowhere : (k : ℕ) → min ≤ first + k → get_elem? (h ∷ fds) k ≢ some 0
    nowhere zero le e = skip (omega (arith, le), some_injective h 0 e)
    nowhere (suc k) le e = none_free k (omega (arith, le)) e

now-Found : (fds : List ℕ) (first min : ℕ) → min ≤ first → Found min first (0 ∷ fds) (some first)
now-Found fds first min above =
    subst (λ n. Found min first (0 ∷ fds) (some n)) (omega arith)
      (found 0 (omega (arith, above)) refl (λ k le lt. absurd (omega (arith, lt))))

free_from-Found : (fds : List ℕ) (first min : ℕ) → Found min first fds (free_from fds first min)
unfolding free_from
free_from-Found [] first min = missing (λ k le e. absurd cc)
free_from-Found (h ∷ fds) first min = elim (Bool-cases (leb min first && h == 0)) [
  | inl taken ↦
      let zero_entry : h ≡ 0 = ground (arith, taken) in
      let above : min ≤ first = ground (arith, taken) in
      rw taken (
        subst (λ x. Found min first (x ∷ fds) (some first)) (sym zero_entry)
          (now-Found fds first min above))
  | inr passed ↦ rw passed (
      later-Found h fds first min (λ both. absurd (ground (arith, passed, both)))
        (free_from-Found fds (first + 1) min))
]

taken-Registered :
    (handle min : ℕ) (fds : List ℕ) {r : Option ℕ}
    → Found min 0 fds r
    → Registered handle min fds (take_entry handle fds r).0 (take_entry handle fds r).1
unfolding take_entry
taken-Registered handle min fds (found i above free least) =
    subst (λ n. Registered handle min fds (some n) (set fds n handle)) (omega arith)
      (registered i (omega (arith, above)) free (λ k le lt. least k (omega (arith, le)) lt))
taken-Registered handle min fds (missing none_free) = full (λ k le. none_free k (omega (arith, le)))

-- Registering takes the first entry that is 0, from a minimum that is not negative.
pub register_fd_min-Registered :
    (handle min : ℕ) (fds : List ℕ)
    → min < 2 ^ 31
    → let (r, new) = register_fd_min handle min fds in Registered handle min fds r new
unfolding register_fd_min
register_fd_min-Registered handle min fds small =
    let positive : is_negative32 min ≡ false = ground (arith, small) in
    rw positive (taken-Registered handle min fds (free_from-Found fds 0 min))
