-- ===== src/Sysdeps/Ioctl.antt =====
-- The control calls of sysdeps.cpp in outside/mlibc-sysdeps whose structures carry descriptors. The
-- argument is the list of its bytes, and a null one is none; the kernel's reply has the bytes after it.
pub mod Restored
use i_user_apps.Common.{drop}
use i_user_apps.Common.{
  ℕ, zero, suc, ◌+◌, ◌-◌, ◌*◌, ◌/◌, ◌%◌, ◌^◌, Bool, true, false, not, ◌&&◌, Option, none, some,
  List, [], ◌∷◌, ◌++◌, ◌==◌, if◌then◌else◌, length, take, u32_mod,
}
use i_user_apps.Sysdeps.Kernel.{
  ◌>>=◌, ◌>>◌, Call, Action, Result, ok, err, Error, pure, gets, syscall, sc_error,
}
use i_user_apps.Sysdeps.FdTable.{open_handle, slot_for_fd, fd_for_slot}
use i_user_apps.Sysdeps.Directory.Records.{read_le}
use i_user_apps.Sysdeps.Directory.{le_bytes}
use Prim.Native.Nat.{bit_and}

-- A descriptor in a structure: the type and the number of the call, its place, and whether the kernel
-- writes it.
pub record FdField : Type 0 where
  pub type : ℕ
  pub nr : ℕ
  pub offset : ℕ
  pub out : Bool

abbrev pub fd_fields : List FdField
fd_fields =
    record { type = 100; nr = 0x2d; offset = 8; out = true }
    ∷ record { type = 100; nr = 0x2e; offset = 8; out = false }
    ∷ record { type = 100; nr = 0xc1; offset = 8; out = true }
    ∷ record { type = 100; nr = 0xc2; offset = 8; out = false }
    ∷ record { type = 62; nr = 3; offset = 32; out = false }
    ∷ record { type = 62; nr = 3; offset = 36; out = true }
    ∷ record { type = 98; nr = 2; offset = 4; out = true }
    ∷ record { type = 98; nr = 3; offset = 4; out = false }
    ∷ []

abbrev pub execbuffer2_nr : ℕ
execbuffer2_nr = 0x69

abbrev pub exec_fence_in : ℕ
exec_fence_in = 2 ^ 16

abbrev pub exec_fence_out : ℕ
exec_fence_out = 2 ^ 17

-- The number of `count` bytes at an offset, and its replacement.
unfoldable pub load : ℕ → ℕ → List ℕ → ℕ
load count offset bytes = read_le (take count (drop offset bytes))

unfoldable pub store_bytes : ℕ → List ℕ → List ℕ → List ℕ
store_bytes zero new bytes = new ++ drop (length new) bytes
store_bytes (suc offset) new [] = []
store_bytes (suc offset) new (b ∷ bytes) = b ∷ store_bytes offset new bytes

unfoldable pub store : ℕ → ℕ → ℕ → List ℕ → List ℕ
store count offset value bytes = store_bytes offset (le_bytes count value) bytes

-- The fields of a call, at most two.
unfoldable pub fields_of : ℕ → ℕ → List FdField → List FdField
fields_of type nr [] = []
fields_of type nr (f ∷ fields) =
    let rest = fields_of type nr fields in if f.type == type && f.nr == nr then f ∷ rest else rest

-- -1 as 32 bits.
unfoldable pub slot_value : Option ℕ → ℕ
slot_value none = u32_mod - 1
slot_value (some slot) = slot

-- A field that the kernel reads holds the slot of its descriptor for the call.
unfoldable pub put_slots : List ℕ → List FdField → List ℕ → List ℕ
put_slots fds [] bytes = bytes
put_slots fds (f ∷ fields) bytes =
    let value = load 4 f.offset bytes in
    put_slots fds fields
      (if f.out then bytes else store 4 f.offset (slot_value (slot_for_fd fds value)) bytes)

-- The descriptors before the call.
unfoldable pub saved_fds : List FdField → List ℕ → List ℕ
saved_fds [] bytes = []
saved_fds (f ∷ fields) bytes = load 4 f.offset bytes ∷ saved_fds fields bytes

unfoldable pub is_execbuffer : ℕ → ℕ → Bool
is_execbuffer type nr = type == 100 && nr == execbuffer2_nr

-- The lower half of a word of 64 bits, and the word with another one.
unfoldable pub low_half : ℕ → ℕ
low_half n = n % u32_mod

unfoldable pub with_low_half : ℕ → ℕ → ℕ
with_low_half n low = n / u32_mod * u32_mod + low % u32_mod

-- The fence that the kernel waits for.
unfoldable pub put_fence : List ℕ → Bool → List ℕ → List ℕ
put_fence fds execbuffer bytes =
    let flags = load 8 40 bytes in
    let rsvd2 = load 8 56 bytes in
    if execbuffer && not (bit_and flags exec_fence_in == 0)
    then store 8 56 (with_low_half rsvd2 (slot_value (slot_for_fd fds (low_half rsvd2)))) bytes
    else bytes

-- How a call ended, with the bytes of its structure.
pub record Outcome : Type 0 where
  pub buffer : List ℕ
  pub result : Result ℕ

abbrev pub out_of_fds : List ℕ → Outcome
out_of_fds buffer = record { buffer = buffer; result = err Error.emfile }

-- The kernel's slot in a field as a new descriptor, or -1.
unfoldable pub take_slot : ℕ → List ℕ → Action (List ℕ × Option ℕ)
take_slot offset bytes = do
  fd ← fd_for_slot (load 4 offset bytes)
  pure (store 4 offset (slot_value fd) bytes, fd)

unfoldable pub unless_full : List ℕ × Option ℕ → (List ℕ → Action Outcome) → Action Outcome
unless_full (bytes, none) next = pure (out_of_fds bytes)
unless_full (bytes, some fd) next = next bytes

-- One field after the call: the caller's descriptor as it was, or a new one for what the kernel wrote.
unfoldable pub restore_field :
    Bool → Bool → ℕ → ℕ → List ℕ → (List ℕ → Action Outcome) → Action Outcome
restore_field false granted offset fd bytes next = next (store 4 offset fd bytes)
restore_field true false offset fd bytes next = next bytes
restore_field true true offset fd bytes next = do
  taken ← take_slot offset bytes
  unless_full taken next

unfoldable pub restore_fields :
    Bool → List FdField → List ℕ → List ℕ → (List ℕ → Action Outcome) → Action Outcome
restore_fields granted [] saved bytes next = next bytes
restore_fields granted (f ∷ fields) [] bytes next = next bytes
restore_fields granted (f ∷ fields) (fd ∷ saved) bytes next =
    restore_field f.out granted f.offset fd bytes
      (λ after. restore_fields granted fields saved after next)

-- The fence that the kernel made, in the upper half of its word.
unfoldable pub take_fence : Bool → List ℕ → ℕ → (List ℕ → Action Outcome) → Action Outcome
take_fence false bytes after next = next (store 8 56 after bytes)
take_fence true bytes after next = do
  fd ← fd_for_slot (after / u32_mod)
  unless_full (store 8 56 (low_half after + slot_value fd * u32_mod) bytes, fd) next

-- The lower half is the caller's again.
unfoldable pub restore_fence :
    Bool → Bool → ℕ → ℕ → List ℕ → (List ℕ → Action Outcome) → Action Outcome
restore_fence false granted flags rsvd2 bytes next = next bytes
restore_fence true granted flags rsvd2 bytes next =
    take_fence (granted && not (bit_and flags exec_fence_out == 0)) bytes
      (with_low_half (load 8 56 bytes) rsvd2) next

unfoldable pub end_ioctl : ℕ → List ℕ → Action Outcome
end_ioctl ret bytes = pure (record {
  buffer = bytes;
  result =
      if sc_error ret == 0 then ok (ret % u32_mod) else err (Error.kernel_error (sc_error ret));
})

unfoldable pub ioctl_buffer : ℕ → ℕ → List ℕ → Action Outcome
ioctl_buffer handle request bytes = do
  fds ← gets (λ p. p.fds)
  let type = request / 256 % 256
  let nr = request % 256
  let fields = fields_of type nr fd_fields
  let execbuffer = is_execbuffer type nr
  r ←
      syscall (
        Call.sys_ioctl_buffer handle request
          (put_fence fds execbuffer (put_slots fds fields bytes)))
  restore_fields (sc_error r.ret == 0) fields (saved_fds fields bytes) r.bytes (λ after.
      restore_fence execbuffer (sc_error r.ret == 0) (load 8 40 bytes) (load 8 56 bytes) after
        (end_ioctl r.ret))

unfoldable pub ioctl_null : ℕ → ℕ → Action Outcome
ioctl_null handle request = do r ← syscall (Call.sys_ioctl handle request 0); end_ioctl r.ret []

unfoldable pub ioctl_argument : ℕ → ℕ → Option (List ℕ) → Action Outcome
ioctl_argument handle request none = ioctl_null handle request
ioctl_argument handle request (some bytes) = ioctl_buffer handle request bytes

unfoldable pub ioctl_fd : ℕ → ℕ → Option (List ℕ) → Action Outcome
ioctl_fd fd request arg = do handle ← open_handle fd; ioctl_argument handle request arg
