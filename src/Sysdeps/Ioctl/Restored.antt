-- ===== src/Sysdeps/Ioctl/Restored.antt =====
-- A control call of sysdeps.cpp in outside/mlibc-sysdeps that takes a descriptor in its structure.
use i_user_apps.Common.{drop}
use i_user_apps.Common.{
  ℕ, zero, suc, ◌/◌, ◌%◌, ◌^◌, ◌≤◌, ◌<◌, ◌≡◌, refl, false, List, [], ◌∷◌, ◌++◌, arith, ◌==◌,
  if◌then◌else◌, length, u32_mod,
}
use i_user_apps.Sysdeps.Kernel.{Process, Call, ok, err, Error, syscall, reply_to, sc_error}
use i_user_apps.Sysdeps.FdTable.{slot_for_fd}
use i_user_apps.Sysdeps.FdTable.Keep.{called}
use i_user_apps.Sysdeps.Directory.{le_bytes}
use i_user_apps.Sysdeps.Directory.Records.{read_le-le_bytes}
use i_user_apps.Sysdeps.Ioctl.{
  FdField, fd_fields, load, store, store_bytes, fields_of, slot_value, put_slots, saved_fds,
  is_execbuffer, put_fence, Outcome, restore_field, restore_fields, restore_fence, end_ioctl,
  ioctl_buffer,
}

drop-store_bytes :
    (offset : ℕ) (new bytes : List ℕ)
    → offset ≤ length bytes
    → drop offset (store_bytes offset new bytes) ≡ new ++ drop (length new) (drop offset bytes)
unfolding store_bytes
drop-store_bytes zero new bytes h = refl
drop-store_bytes (suc offset) new [] h = absurd (omega (arith, h))
drop-store_bytes (suc offset) new (b ∷ bytes) h =
    drop-store_bytes offset new bytes (omega (arith, h))

load-store :
    (offset value : ℕ) (bytes : List ℕ)
    → offset ≤ length bytes
    → value < 2 ^ 32
    → load 4 offset (store 4 offset value bytes) ≡ value
unfolding load store
load-store offset value bytes h small =
    rw (drop-store_bytes offset (le_bytes 4 value) bytes h) (read_le-le_bytes 4 value small)

-- A call whose structure has one descriptor, which the kernel reads: the kernel sees the descriptor's
-- slot in its place, and the caller's structure has the descriptor again, also when the call fails.
pub ioctl_buffer-restores :
    (p : Process) (handle request : ℕ) (bytes : List ℕ) (f : FdField)
    → fields_of (request / 256 % 256) (request % 256) fd_fields ≡ f ∷ []
    → f.out ≡ false
    → is_execbuffer (request / 256 % 256) (request % 256) ≡ false
    → load 4 f.offset bytes < 2 ^ 32
    → let slot = slot_value (slot_for_fd p.fds (load 4 f.offset bytes)) in
      let call = Call.sys_ioctl_buffer handle request (store 4 f.offset slot bytes) in
      f.offset ≤ length (reply_to p call).bytes
      → (out : Outcome) × (ioctl_buffer handle request bytes p ≡ (ok out, called p call))
        × (load 4 f.offset out.buffer ≡ load 4 f.offset bytes)
unfolding ioctl_buffer put_slots saved_fds put_fence restore_fields restore_field restore_fence
    end_ioctl syscall called
ioctl_buffer-restores p handle request bytes f one reads plain small enough =
    let fd = load 4 f.offset bytes in
    let slot = slot_value (slot_for_fd p.fds fd) in
    let r = reply_to p (Call.sys_ioctl_buffer handle request (store 4 f.offset slot bytes)) in
    rw (one, plain, reads)
      (
        record {
          buffer = store 4 f.offset fd r.bytes;
          result =
              if sc_error r.ret == 0
              then ok (r.ret % u32_mod)
              else err (Error.kernel_error (sc_error r.ret));
        },
        refl,
        load-store f.offset fd r.bytes enough small,
      )
