-- ===== src/Sysdeps/Sockets.antt =====
-- The calls on sockets of sysdeps.cpp in outside/mlibc-sysdeps, less the messages with descriptors. An
-- address is its bytes, and a null one is none.
pub mod Connect
use i_user_apps.Common.{
  ℕ, zero, suc, Bool, true, false, not, ◌&&◌, ◌||◌, Option, none, some, List, [], ◌∷◌, ◌==◌,
  if◌then◌else◌, get_or,
}
use i_user_apps.Sysdeps.Kernel.{
  ◌>>=◌, ◌>>◌, Reply, Call, Action, Error, Done, Abi, pure, raise, gets, syscall, check, ask,
  perform, minus_one, sc_error,
}
use i_user_apps.Sysdeps.FdTable.{open_handle}
use Prim.Native.Nat.{bit_and}

unfoldable pub bind_socket : ℕ → List ℕ → Action Done
bind_socket fd address = do handle ← open_handle fd; perform (Call.sys_bind handle address)

unfoldable pub listen_socket : ℕ → ℕ → Action Done
listen_socket fd backlog = do handle ← open_handle fd; perform (Call.sys_listen handle backlog)

unfoldable pub shutdown_socket : ℕ → ℕ → Action Done
shutdown_socket fd how = do handle ← open_handle fd; perform (Call.sys_shutdown handle how)

-- To an address if there is one and it is not empty.
unfoldable pub send_call : ℕ → List ℕ → ℕ → Option (List ℕ) → Call
send_call handle bytes flags (some (b ∷ address)) = Call.sys_sendto handle bytes flags (b ∷ address)
send_call handle bytes flags address = Call.sys_send handle bytes flags

unfoldable pub sendto : ℕ → List ℕ → ℕ → Option (List ℕ) → Action ℕ
sendto fd bytes flags address = do
  handle ← open_handle fd
  r ← ask (send_call handle bytes flags address)
  pure r.ret

-- The result and what the kernel wrote; `wanted` is the room for the source's address, if it is wanted.
unfoldable pub recv_call : ℕ → ℕ → ℕ → Bool → Call
recv_call handle size flags true = Call.sys_recvfrom handle size flags
recv_call handle size flags false = Call.sys_recv handle size flags

unfoldable pub recvfrom : ℕ → ℕ → ℕ → Bool → Action (ℕ × List ℕ)
recvfrom fd size flags wanted = do
  handle ← open_handle fd
  r ← ask (recv_call handle size flags wanted)
  pure (r.ret, r.bytes)

unfoldable pub socket_is_datagram : ℕ → Action Bool
socket_is_datagram handle = do
  abi ← gets (λ p. p.abi)
  r ← syscall (Call.sys_getsockopt handle abi.sol_socket abi.so_type)
  pure (sc_error r.ret == 0 && get_or r.words 0 0 == abi.sock_dgram)

-- The call that waits for the connection.
abbrev pub connect_poll : Abi → ℕ → Call
connect_poll abi handle = Call.sys_poll (handle ∷ []) (abi.pollout ∷ []) minus_one

-- A result of poll that ends the wait.
unfoldable pub is_answer : Abi → Reply → Bool
is_answer abi r =
    let e = sc_error r.ret in
    let revents = get_or r.words 0 0 in
    if e == 0
    then not (bit_and revents abi.pollerr_hup == 0) || not (bit_and revents abi.pollout == 0)
    else not (e == abi.eintr)

-- The error that the socket has, or ECONNREFUSED.
unfoldable pub queued_error : Reply → Error
queued_error r =
    let soerr = get_or r.words 0 0 in
    if sc_error r.ret == 0 && not (soerr == 0) then Error.kernel_error soerr else Error.econnrefused

unfoldable pub refused : Abi → ℕ → Action (Option Done)
refused abi handle = do
  r ← syscall (Call.sys_getsockopt handle abi.sol_socket abi.so_error)
  raise (queued_error r)

-- What an answer means.
unfoldable pub take_answer : Abi → ℕ → Reply → Action (Option Done)
take_answer abi handle r = do
  check r.ret
  (if bit_and (get_or r.words 0 0) abi.pollerr_hup == 0 then pure (some tt) else refused abi handle)

unfoldable pub answer_or : Bool → Action (Option Done) → Action (Option Done) → Action (Option Done)
answer_or true answered waiting = answered
answer_or false answered waiting = waiting

-- The wait of a blocking socket, with fuel; none when it is still waiting.
unfoldable pub wait_connected : ℕ → Abi → ℕ → Action (Option Done)
wait_connected zero abi handle = pure none
wait_connected (suc fuel) abi handle = do
  r ← syscall (connect_poll abi handle)
  answer_or (is_answer abi r) (take_answer abi handle r) (wait_connected fuel abi handle)

unfoldable pub finish_connect : Bool → ℕ → Abi → ℕ → Action (Option Done)
finish_connect true fuel abi handle = raise Error.einprogress
finish_connect false fuel abi handle = wait_connected fuel abi handle

-- The handshake is on its way: a socket that does not block is told so.
unfoldable pub pending_connect : ℕ → Abi → ℕ → Action (Option Done)
pending_connect fuel abi handle = do
  flags ← syscall (Call.sys_fcntl handle abi.f_getfl 0)
  finish_connect (sc_error flags.ret == 0 && not (bit_and flags.ret abi.o_nonblock == 0)) fuel abi
      handle

unfoldable pub connect_result : Bool → ℕ → Abi → ℕ → Reply → Action (Option Done)
connect_result true fuel abi handle r = pending_connect fuel abi handle
connect_result false fuel abi handle r = do check r.ret; pure (some tt)

unfoldable pub connect_socket : ℕ → ℕ → List ℕ → Action (Option Done)
connect_socket fuel fd address = do
  handle ← open_handle fd
  abi ← gets (λ p. p.abi)
  r ← syscall (Call.sys_connect handle address)
  connect_result (sc_error r.ret == abi.eagain) fuel abi handle r
