-- ===== src/Sysdeps/Messages.antt =====
-- Messages with several buffers and with descriptors, in sysdeps.cpp of outside/mlibc-sysdeps. What is
-- sent is a list of buffers, and what may be received is the list of their sizes. The memory for a
-- buffer that holds them all is there.
pub mod Passed
use i_user_apps.Common.{
  drop, ℕ, zero, suc, ◌+◌, Bool, true, false, not, ◌&&◌, ◌||◌, Option, none, some, List, [], ◌∷◌,
  ◌++◌, ltb, ◌==◌, if◌then◌else◌, length, get_or, take,
}
use i_user_apps.Sysdeps.Kernel.{
  ◌>>=◌, ◌>>◌, Reply, Call, Action, Result, ok, err, Error, Done, pure, raise, gets, syscall, check,
  ask, sc_error,
}
use i_user_apps.Sysdeps.FdTable.{open_handle, handle_for_fd, max_fd, on_fds, register_fd}
use i_user_apps.Sysdeps.Sockets.{send_call, recv_call, socket_is_datagram}

-- `SCM_MAX_FD`.
abbrev pub max_passed_fds : ℕ
max_passed_fds = 253

unfoldable pub iov_total : List ℕ → ℕ
iov_total [] = 0
iov_total (size ∷ sizes) = size + iov_total sizes

-- The buffers one after the other.
unfoldable pub gather : List (List ℕ) → List ℕ
gather [] = []
gather (buffer ∷ buffers) = buffer ++ gather buffers

-- The parts of what was received that go into buffers of these sizes.
unfoldable pub scatter : List ℕ → List ℕ → List (List ℕ)
scatter [] bytes = []
scatter (size ∷ sizes) bytes = take size bytes ∷ scatter sizes (drop size bytes)

unfoldable pub add_handle : ℕ → Result (List ℕ) → Result (List ℕ)
add_handle handle (ok handles) = ok (handle ∷ handles)
add_handle handle (err e) = err e

-- The handles of the descriptors to pass on, after `count` others.
unfoldable pub passed_handles : List ℕ → ℕ → List ℕ → Result (List ℕ)
passed_handles fds count [] = ok []
passed_handles fds count (fd ∷ rights) =
    let rest = passed_handles fds (count + 1) rights in
    if count == max_passed_fds
    then err Error.einval
    else if not (ltb fd max_fd) || (get_or fds fd 0 == 0 && ltb 2 fd)
    then err Error.ebadf
    else add_handle (handle_for_fd fds fd) rest

-- The result of a message, or none on a socket that takes no such messages.
unfoldable pub sent_result : Bool → Bool → Reply → Action (Option ℕ)
sent_result true true r = pure none
sent_result true false r = raise Error.einval
sent_result false passes_none r = do check r.ret; pure (some r.ret)

unfoldable pub unix_msg_send : ℕ → List (List ℕ) → List ℕ → ℕ → Action (Option ℕ)
unix_msg_send handle buffers rights flags = do
  handles ← λ p. (passed_handles p.fds 0 rights, p)
  abi ← gets (λ p. p.abi)
  r ← syscall (Call.sys_sendmsg handle (gather buffers) handles flags)
  sent_result (sc_error r.ret == abi.eopnotsupp) (length handles == 0) r

unfoldable pub or_partial : ℕ → ℕ → Action ℕ
or_partial total ret = if total == 0 then (do check ret; pure total) else pure total

-- The buffers one by one on a stream, as long as each is sent whole. An error is returned unless
-- something was sent before it.
unfoldable pub send_loop : ℕ → ℕ → List (List ℕ) → ℕ → Action ℕ
send_loop handle flags [] total = pure total
send_loop handle flags ([] ∷ buffers) total = send_loop handle flags buffers total
send_loop handle flags ((b ∷ bytes) ∷ buffers) total = do
  r ← syscall (Call.sys_send handle (b ∷ bytes) flags)
  (if not (sc_error r.ret == 0)
      then or_partial total r.ret
      else if ltb r.ret (length (b ∷ bytes))
      then pure (total + r.ret)
      else send_loop handle flags buffers (total + r.ret))

unfoldable pub send_datagram : ℕ → List (List ℕ) → ℕ → Option (List ℕ) → Action ℕ
send_datagram handle buffers flags address = do
  r ← ask (send_call handle (gather buffers) flags address)
  pure r.ret

unfoldable pub send_kind : Bool → ℕ → List (List ℕ) → ℕ → Option (List ℕ) → Action ℕ
send_kind true handle buffers flags address = send_datagram handle buffers flags address
send_kind false handle buffers flags address = send_loop handle flags buffers 0

unfoldable pub send_otherwise : Option ℕ → ℕ → List (List ℕ) → ℕ → Option (List ℕ) → Action ℕ
send_otherwise (some size) handle buffers flags address = pure size
send_otherwise none handle buffers flags address = do
  datagram ← socket_is_datagram handle
  send_kind datagram handle buffers flags address

unfoldable pub msg_send : ℕ → List (List ℕ) → List ℕ → ℕ → Option (List ℕ) → Action ℕ
msg_send fd buffers rights flags address = do
  handle ← open_handle fd
  sent ← unix_msg_send handle buffers rights flags
  send_otherwise sent handle buffers flags address

-- One handle that came with a message: its descriptor is stored, or it is closed, and then
-- `MSG_CTRUNC` is set.
unfoldable pub store_passed : ℕ → Option ℕ → List ℕ × Bool → List ℕ × Bool
store_passed handle none (fds, truncated) = (fds, true)
store_passed handle (some fd) (fds, truncated) = (fd ∷ fds, truncated)

unfoldable pub close_passed : ℕ → Option ℕ → Action Done
close_passed handle (some fd) = pure tt
close_passed handle none = do r ← syscall (Call.sys_close handle); pure tt

unfoldable pub register_passed : List ℕ → Action (List ℕ × Bool)
register_passed [] = pure ([], false)
register_passed (handle ∷ handles) = do
  fd ← on_fds (register_fd handle)
  close_passed handle fd
  rest ← register_passed handles
  pure (store_passed handle fd rest)

-- A message that was received: its size, what goes into each buffer, its descriptors, the kernel's
-- flags for it, and whether `MSG_CTRUNC` is set on them.
pub record Received : Type 0 where
  pub size : ℕ
  pub pieces : List (List ℕ)
  pub fds : List ℕ
  pub flags : ℕ
  pub truncated : Bool

unfoldable pub tail_of : List ℕ → List ℕ
tail_of [] = []
tail_of (x ∷ xs) = xs

-- The kernel's words are the flags and the handles; `none` as in `unix_msg_send`.
unfoldable pub received_result : Bool → List ℕ → Reply → Action (Option Received)
received_result true sizes r = pure none
received_result false sizes r = do
  check r.ret
  (fds, truncated) ← register_passed (tail_of r.words)
  pure (
      some (record {
        size = r.ret;
        pieces = scatter sizes (take r.ret r.bytes);
        fds = fds;
        flags = get_or r.words 0 0;
        truncated = truncated;
      }))

-- `room` is the number of descriptors that the control buffer can hold.
unfoldable pub unix_msg_recv : ℕ → List ℕ → ℕ → ℕ → Action (Option Received)
unix_msg_recv handle sizes room flags = do
  abi ← gets (λ p. p.abi)
  r ← syscall (
      Call.sys_recvmsg handle (iov_total sizes)
        (if ltb max_passed_fds room then max_passed_fds else room) flags)
  received_result (sc_error r.ret == abi.eopnotsupp) sizes r

abbrev pub plain : ℕ → List (List ℕ) → Received
plain size pieces = record { size = size; pieces = pieces; fds = []; flags = 0; truncated = false }

unfoldable pub recv_datagram : ℕ → List ℕ → ℕ → Bool → Action Received
recv_datagram handle sizes flags wanted = do
  r ← ask (recv_call handle (iov_total sizes) flags wanted)
  pure (plain r.ret (scatter sizes (take r.ret r.bytes)))

unfoldable pub recv_partial : ℕ → List (List ℕ) → ℕ → Action Received
recv_partial total pieces ret = do size ← or_partial total ret; pure (plain size pieces)

-- The buffers one by one on a stream, as long as each is filled; `pieces` holds what is in those before.
unfoldable pub recv_loop : ℕ → ℕ → List ℕ → ℕ → List (List ℕ) → Action Received
recv_loop handle flags [] total pieces = pure (plain total pieces)
recv_loop handle flags (zero ∷ sizes) total pieces =
    recv_loop handle flags sizes total (pieces ++ [] ∷ [])
recv_loop handle flags (suc size ∷ sizes) total pieces = do
  r ← syscall (Call.sys_recv handle (suc size) flags)
  let filled = pieces ++ take r.ret r.bytes ∷ []
  (if not (sc_error r.ret == 0)
      then recv_partial total pieces r.ret
      else if ltb r.ret (suc size)
      then pure (plain (total + r.ret) filled)
      else recv_loop handle flags sizes (total + r.ret) filled)

unfoldable pub recv_kind : Bool → ℕ → List ℕ → ℕ → Bool → Action Received
recv_kind true handle sizes flags wanted = recv_datagram handle sizes flags wanted
recv_kind false handle sizes flags wanted = recv_loop handle flags sizes 0 []

unfoldable pub recv_otherwise : Option Received → ℕ → List ℕ → ℕ → Bool → Action Received
recv_otherwise (some message) handle sizes flags wanted = pure message
recv_otherwise none handle sizes flags wanted = do
  datagram ← socket_is_datagram handle
  recv_kind datagram handle sizes flags wanted

unfoldable pub msg_recv : ℕ → List ℕ → ℕ → ℕ → Bool → Action Received
msg_recv fd sizes room flags wanted = do
  handle ← open_handle fd
  received ← unix_msg_recv handle sizes room flags
  recv_otherwise received handle sizes flags wanted
