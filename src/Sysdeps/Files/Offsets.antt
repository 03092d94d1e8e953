-- ===== src/Sysdeps/Files/Offsets.antt =====
-- The positioned transfers of sysdeps.cpp in outside/mlibc-sysdeps, which the kernel does not have.
use i_user_apps.Common.{
  ℕ, ◌+◌, ◌^◌, ◌<◌, ◌≡◌, refl, ◌∙◌, inl, inr, [], ◌∷◌, arith, ◌==◌, if◌then◌else◌, ==_refl,
  Bool-cases,
}
use i_user_apps.Sysdeps.Kernel.{
  Process, Reply, Call, Log, Result, ok, err, Error, syscall, check, sc_error, reply_to,
}
use i_user_apps.Sysdeps.FdTable.Keep.{called, ask-granted}
use i_user_apps.Sysdeps.Files.{at_offset}

-- The offset of a handle after a call: a seek returns it, a transfer moves it by what it returns.
unfoldable pub moved_offset : ℕ → Call → ℕ → ℕ → ℕ
moved_offset handle (Call.sys_seek h offset whence) ret old = if h == handle then ret else old
moved_offset handle (Call.sys_read h size) ret old = if h == handle then old + ret else old
moved_offset handle (Call.sys_write h bytes) ret old = if h == handle then old + ret else old
moved_offset handle call ret old = old

unfoldable pub offset_of : ℕ → Log → ℕ
offset_of handle [] = 0
offset_of handle ((call, reply) ∷ log) =
    let old = offset_of handle log in
    if sc_error reply.ret == 0 then moved_offset handle call reply.ret old else old

-- A handle on which the kernel can seek: from the current offset by 0, and to an offset from the start.
pub record IsSeekable (kernel : Log → Call → Reply) (handle : ℕ) : Type 0 where
  pub tells : (log : Log) → (kernel log (Call.sys_seek handle 0 1)).ret ≡ offset_of handle log
  pub goes :
      (log : Log) (offset : ℕ)
      → offset < 2 ^ 63
      → (kernel log (Call.sys_seek handle offset 0)).ret ≡ offset

no_error : (n : ℕ) → n < 2 ^ 63 → sc_error n ≡ 0
unfolding sc_error
no_error n small = ground (arith, small)

-- After a call of the handle that the kernel granted.
offset_of-called :
    (p : Process) (handle : ℕ) (call : Call)
    → sc_error (reply_to p call).ret ≡ 0
    → offset_of handle (called p call).calls
      ≡ moved_offset handle call (reply_to p call).ret (offset_of handle p.calls)
unfolding called offset_of
offset_of-called p handle call e = rw (offset_of, e)

sought :
    (p : Process) (handle offset whence : ℕ)
    → sc_error (reply_to p (Call.sys_seek handle offset whence)).ret ≡ 0
    → offset_of handle (called p (Call.sys_seek handle offset whence)).calls
      ≡ (reply_to p (Call.sys_seek handle offset whence)).ret
unfolding moved_offset
sought p handle offset whence e =
    rw (offset_of-called p handle (Call.sys_seek handle offset whence) e, ==_refl handle)

-- A seek to an offset is granted, and ends there.
seek_to :
    (p : Process) (handle offset : ℕ)
    → IsSeekable p.kernel handle
    → offset < 2 ^ 63
    → offset_of handle (called p (Call.sys_seek handle offset 0)).calls ≡ offset
unfolding called
seek_to p handle offset seekable small =
    let there : (reply_to p (Call.sys_seek handle offset 0)).ret ≡ offset =
      seekable.goes p.calls offset small in
    let granted : sc_error (reply_to p (Call.sys_seek handle offset 0)).ret ≡ 0 =
      rw there (no_error offset small) in
    sought p handle offset 0 granted ∙ there

-- A result from the kernel as the C library returns it.
unfoldable pub answer : Reply → Result Reply
answer r = if sc_error r.ret == 0 then ok r else err (Error.kernel_error (sc_error r.ret))

-- The process when the transfer starts, and when it is over.
positioned : Process → ℕ → ℕ → Process
positioned p handle offset =
    called (called p (Call.sys_seek handle 0 1)) (Call.sys_seek handle offset 0)

at_offset-steps :
    (p : Process) (handle offset : ℕ) (transfer : Call)
    → IsSeekable p.kernel handle
    → offset < 2 ^ 63
    → offset_of handle p.calls < 2 ^ 63
    → at_offset handle offset transfer p ≡ (
      answer (reply_to (positioned p handle offset) transfer),
      called
          (called (positioned p handle offset) transfer)
          (Call.sys_seek handle (offset_of handle p.calls) 0),
    )
unfolding at_offset positioned called syscall check answer
at_offset-steps p handle offset transfer seekable small small_now =
    let tell = Call.sys_seek handle 0 1 in
    let go = Call.sys_seek handle offset 0 in
    let now : (reply_to p tell).ret ≡ offset_of handle p.calls = seekable.tells p.calls in
    let told : sc_error (reply_to p tell).ret ≡ 0 =
      rw now (no_error (offset_of handle p.calls) small_now) in
    let there : (reply_to (called p tell) go).ret ≡ offset =
      seekable.goes (called p tell).calls offset small in
    let gone : sc_error (reply_to (called p tell) go).ret ≡ 0 = rw there (no_error offset small) in
    elim (Bool-cases (sc_error (reply_to (positioned p handle offset) transfer).ret == 0)) [
      | inl fine ↦
          rw (at_offset, ask-granted tell p told, ask-granted go (called p tell) gone, now, fine)
      | inr failed ↦
          rw (at_offset, ask-granted tell p told, ask-granted go (called p tell) gone, now, failed)
    ]

-- A positioned transfer on a handle on which the kernel can seek: the transfer is made at the wanted
-- offset, its result or its error is returned, and the handle's offset is afterwards what it was.
pub at_offset-keeps_offset :
    (p : Process) (handle offset : ℕ) (transfer : Call)
    → IsSeekable p.kernel handle
    → offset < 2 ^ 63
    → offset_of handle p.calls < 2 ^ 63
    → let (result, after) = at_offset handle offset transfer p in
      (offset_of handle after.calls ≡ offset_of handle p.calls)
      × (log : Log) × (offset_of handle log ≡ offset)
      × (result ≡ answer (p.kernel log transfer))
unfolding called positioned
at_offset-keeps_offset p handle offset transfer seekable small small_now =
    rw (at_offset-steps p handle offset transfer seekable small small_now) (
      seek_to (called (positioned p handle offset) transfer) handle (offset_of handle p.calls)
          seekable small_now,
      (positioned p handle offset).calls,
      seek_to (called p (Call.sys_seek handle 0 1)) handle offset seekable small,
      refl,
    )
