-- ===== src/Sysdeps/Sockets/Connect.antt =====
-- The blocking connect of sysdeps.cpp in outside/mlibc-sysdeps.
use i_user_apps.Common.{
  ℕ, zero, suc, ◌≡◌, ◌≢◌, inl, inr, true, false, Option, none, some, arith, ◌==◌, Bool-cases,
  get_or,
}
use i_user_apps.Sysdeps.Kernel.{
  Process, Reply, Call, Result, ok, err, Error, Done, Abi, syscall, check, sc_error, reply_to,
}
use i_user_apps.Sysdeps.FdTable.Keep.{called}
use Prim.Native.Nat.{bit_and}
use i_user_apps.Sysdeps.Sockets.{
  connect_poll, is_answer, queued_error, take_answer, refused, answer_or, wait_connected,
}

abbrev events_of : Reply → ℕ
events_of r = get_or r.words 0 0

-- A poll that was interrupted, or in which neither an error nor the connection shows.
pub data SaysNothing (abi : Abi) (r : Reply) : Type 0 where
  interrupted : sc_error r.ret ≢ 0 → sc_error r.ret ≡ abi.eintr → SaysNothing abi r
  nothing_yet :
      sc_error r.ret ≡ 0
      → bit_and (events_of r) abi.pollerr_hup ≡ 0
      → bit_and (events_of r) abi.pollout ≡ 0
      → SaysNothing abi r

-- The error that is reported: the one that the socket has, and ECONNREFUSED if that is not known.
pub data Blames (r : Reply) : Error → Type 0 where
  the_socket_error :
      sc_error r.ret ≡ 0
      → get_or r.words 0 0 ≢ 0
      → Blames r (Error.kernel_error (get_or r.words 0 0))
  not_asked : sc_error r.ret ≢ 0 → Blames r Error.econnrefused
  none_queued : sc_error r.ret ≡ 0 → get_or r.words 0 0 ≡ 0 → Blames r Error.econnrefused

-- The calls of the wait.
abbrev pub polled : Abi → ℕ → Process → Reply
polled abi handle p = reply_to p (connect_poll abi handle)

abbrev error_call : Abi → ℕ → Call
error_call abi handle = Call.sys_getsockopt handle abi.sol_socket abi.so_error

abbrev pub after_poll : Abi → ℕ → Process → Process
after_poll abi handle p = called p (connect_poll abi handle)

-- How a wait of at most so many polls goes on from a process: its result and the process afterwards.
pub data Waits (abi : Abi) (handle : ℕ)
    : ℕ → Process → Result (Option Done) × Process → Type 0 where
  out_of_polls : (p : Process) → Waits abi handle zero p (ok none, p)
  again :
      (polls : ℕ) (p : Process) (end : Result (Option Done) × Process)
      → SaysNothing abi (polled abi handle p)
      → Waits abi handle polls (after_poll abi handle p) end
      → Waits abi handle (suc polls) p end
  poll_failed :
      (polls : ℕ) (p : Process)
      → sc_error (polled abi handle p).ret ≢ 0
      → sc_error (polled abi handle p).ret ≢ abi.eintr
      → Waits abi handle
          (suc polls)
          p
          (err (Error.kernel_error (sc_error (polled abi handle p).ret)), after_poll abi handle p)
  connected :
      (polls : ℕ) (p : Process)
      → sc_error (polled abi handle p).ret ≡ 0
      → bit_and (events_of (polled abi handle p)) abi.pollerr_hup ≡ 0
      → bit_and (events_of (polled abi handle p)) abi.pollout ≢ 0
      → Waits abi handle (suc polls) p (ok (some tt), after_poll abi handle p)
  broken :
      (polls : ℕ) (p : Process) (why : Error)
      → sc_error (polled abi handle p).ret ≡ 0
      → bit_and (events_of (polled abi handle p)) abi.pollerr_hup ≢ 0
      → Blames (reply_to (after_poll abi handle p) (error_call abi handle)) why
      → Waits abi handle
          (suc polls)
          p
          (err why, called (after_poll abi handle p) (error_call abi handle))

queued_error-Blames : (r : Reply) → Blames r (queued_error r)
unfolding queued_error
queued_error-Blames r = elim (Bool-cases (sc_error r.ret == 0)) [
  | inr failed ↦ rw (queued_error, failed) (not_asked (ground (arith, failed)))
  | inl fine ↦ elim (Bool-cases (get_or r.words 0 0 == 0)) [
    | inl empty ↦
        rw (queued_error, fine, empty) (none_queued (ground (arith, fine)) (ground (arith, empty)))
    | inr held ↦
        rw (queued_error, fine, held)
          (the_socket_error (ground (arith, fine)) (ground (arith, held)))
  ]
]

-- From here on, the wait with the rest of the polls.
module _ (abi : Abi) (handle polls : ℕ) (p : Process) where
  abbrev RestWaits : Type 0
  RestWaits =
      Waits abi handle polls (after_poll abi handle p)
        (wait_connected polls abi handle (after_poll abi handle p))

  fine_poll-Waits :
      (sc_error (polled abi handle p).ret == 0) ≡ true
      → RestWaits
      → Waits abi handle (suc polls) p (wait_connected (suc polls) abi handle p)
  unfolding wait_connected answer_or syscall called is_answer take_answer check refused
  fine_poll-Waits fine rest =
      let r = polled abi handle p in
      let no_error : sc_error r.ret ≡ 0 = ground (arith, fine) in
      elim (Bool-cases (bit_and (events_of r) abi.pollerr_hup == 0)) [
        | inr hit ↦
            rw (wait_connected, fine, hit)
              (broken polls p _ no_error (ground (arith, hit))
                (queued_error-Blames (reply_to (after_poll abi handle p) (error_call abi handle))))
        | inl quiet ↦ elim (Bool-cases (bit_and (events_of r) abi.pollout == 0)) [
          | inr ready ↦
              rw (wait_connected, fine, quiet, ready)
                (connected polls p no_error (ground (arith, quiet)) (ground (arith, ready)))
          | inl idle ↦
              rw (wait_connected, fine, quiet, idle)
                (again polls p _
                  (nothing_yet no_error (ground (arith, quiet)) (ground (arith, idle))) rest)
        ]
      ]

  failed_poll-Waits :
      (sc_error (polled abi handle p).ret == 0) ≡ false
      → RestWaits
      → Waits abi handle (suc polls) p (wait_connected (suc polls) abi handle p)
  unfolding wait_connected answer_or syscall called is_answer take_answer check
  failed_poll-Waits failed rest =
      let r = polled abi handle p in
      let error : sc_error r.ret ≢ 0 = ground (arith, failed) in
      elim (Bool-cases (sc_error r.ret == abi.eintr)) [
        | inl eintr ↦
            rw (wait_connected, failed, eintr)
              (again polls p _ (interrupted error (ground (arith, eintr))) rest)
        | inr other ↦
            rw (wait_connected, failed, other) (poll_failed polls p error (ground (arith, other)))
      ]

-- A wait of at most `fuel` polls: a poll that is interrupted or shows nothing is repeated; the first
-- one that fails otherwise ends the wait with its error, one that shows an error or a hang-up with
-- the error that the socket has or ECONNREFUSED, and one that only shows the connection ends it well;
-- the wait is still on only after `fuel` polls that say nothing. No other call is made.
pub wait_connected-Waits :
    (fuel : ℕ) (abi : Abi) (handle : ℕ) (p : Process)
    → Waits abi handle fuel p (wait_connected fuel abi handle p)
unfolding wait_connected
wait_connected-Waits zero abi handle p = out_of_polls p
wait_connected-Waits (suc fuel) abi handle p =
    let rest = wait_connected-Waits fuel abi handle (after_poll abi handle p) in
    elim (Bool-cases (sc_error (polled abi handle p).ret == 0)) [
      | inl fine ↦ fine_poll-Waits abi handle fuel p fine rest
      | inr failed ↦ failed_poll-Waits abi handle fuel p failed rest
    ]
