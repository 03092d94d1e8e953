-- ===== src/Sysdeps/Calls/Entropy.antt =====
-- The random bytes of sysdeps.cpp in outside/mlibc-sysdeps.
use i_user_apps.Common.{
  ℕ, zero, suc, ◌+◌, ◌-◌, ◌≤◌, ◌<◌, ◌≡◌, refl, ◌∙◌, subst, inl, inr, List, [], ◌++◌, arith, ltb,
  ◌==◌, Bool-cases, length, length-append,
}
use i_user_apps.Sysdeps.Kernel.{Process, Reply, Call, Log, Result, ok, sc_error, reply_to}
use i_user_apps.Sysdeps.FdTable.Keep.{called, ask-granted}
use i_user_apps.Sysdeps.Calls.{entropy_chunk, entropy_loop, get_entropy}

-- A kernel that grants every request of at most 256 bytes with as many bytes.
pub FillsEntropy : (Log → Call → Reply) → Type 0
FillsEntropy kernel =
    (log : Log) (n : ℕ)
    → n ≤ 256
    → (sc_error (kernel log (Call.sys_getentropy n)).ret ≡ 0)
      × (length (kernel log (Call.sys_getentropy n)).bytes ≡ n)

-- A buffer of a given length was filled.
pub Filled : ℕ → Result (List ℕ) × Process → Type 0
Filled size out = (buffer : List ℕ) × (out.0 ≡ ok buffer) × (length buffer ≡ size)

chunk_bounds :
    (left : ℕ)
    → 0 < left
    → (0 < entropy_chunk left) × (entropy_chunk left ≤ left) × (entropy_chunk left ≤ 256)
unfolding entropy_chunk
chunk_bounds left h = elim (Bool-cases (ltb left 256)) [
  | inl small ↦ rw small (h, omega arith, ground (arith, small))
  | inr large ↦ rw large (omega arith, ground (arith, large), omega arith)
]

entropy_loop-Filled :
    (fuel left : ℕ) (buffer : List ℕ) (p : Process)
    → FillsEntropy p.kernel
    → left ≤ fuel
    → Filled (length buffer + left) (entropy_loop fuel left buffer p)
unfolding entropy_loop FillsEntropy Filled called
entropy_loop-Filled zero left buffer p fills enough = (buffer, refl, omega (arith, enough))
entropy_loop-Filled (suc fuel) left buffer p fills enough = elim (Bool-cases (left == 0)) [
  | inl nothing ↦ rw nothing (buffer, refl, ground (arith, nothing))
  | inr some_left ↦
      let chunk = entropy_chunk left in
      let bounds = chunk_bounds left (ground (arith, some_left)) in
      let granted = fills p.calls chunk bounds.2 in
      let r = reply_to p (Call.sys_getentropy chunk) in
      let rest =
        entropy_loop-Filled fuel (left - chunk) (buffer ++ r.bytes)
          (called p (Call.sys_getentropy chunk)) fills (omega (arith, enough, bounds.0)) in
      rw (some_left, ask-granted (Call.sys_getentropy chunk) p granted.0)
        (rest.0, rest.1, rest.2 ∙ omega (arith, length-append buffer r.bytes, granted.1, bounds.1))
]

-- A request for any number of random bytes returns exactly that many of the kernel's, in as many steps
-- as it takes, if the kernel grants the requests of at most 256 bytes.
pub get_entropy-Filled :
    (p : Process) (size : ℕ) → FillsEntropy p.kernel → Filled size (get_entropy size p)
unfolding get_entropy
get_entropy-Filled p size fills =
    subst (λ n. Filled n (entropy_loop size size [] p)) (omega arith)
      (entropy_loop-Filled size size [] p fills (omega arith))
