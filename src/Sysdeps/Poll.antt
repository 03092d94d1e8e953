-- ===== src/Sysdeps/Poll.antt =====
-- Waiting for descriptors in sysdeps.cpp of outside/mlibc-sysdeps. A set of descriptors is a function,
-- and a null set is none; the kernel's call is of handles, the events that are wanted, and a timeout.
pub mod Select
use i_user_apps.Common.{
  ℕ, zero, suc, ◌+◌, ◌*◌, ◌/◌, ◌%◌, Bool, true, false, not, ◌&&◌, ◌||◌, Option, none, some, List,
  [], ◌∷◌, map, ltb, ◌==◌, if◌then◌else◌, length, set, take, u32_mod, u64_mod,
}
use i_user_apps.Sysdeps.Kernel.{
  ◌>>=◌, ◌>>◌, Call, Action, Error, pure, raise, gets, ask, minus_one, is_negative64,
}
use i_user_apps.Sysdeps.FdTable.{handle_for_fd, is_negative32}
use Prim.Native.Nat.{bit_and}

abbrev pub FdSet : Type 0
FdSet = Option (ℕ → Bool)

abbrev pub poll_in : ℕ
poll_in = 1

abbrev pub poll_out : ℕ
poll_out = 4

abbrev pub max_polled : ℕ
max_polled = 64

unfoldable pub fd_is_set : FdSet → ℕ → Bool
fd_is_set none fd = false
fd_is_set (some set) fd = set fd

-- The events that are wanted of a descriptor.
unfoldable pub wanted_events : FdSet → FdSet → ℕ → ℕ
wanted_events read_set write_set fd =
    (if fd_is_set read_set fd then poll_in else 0)
    + (if fd_is_set write_set fd then poll_out else 0)

-- A descriptor that is waited for, with its handle and its events.
pub record Watched : Type 0 where
  pub fd : ℕ
  pub handle : ℕ
  pub events : ℕ

unfoldable pub add_watched : Watched → Option (List Watched) → Option (List Watched)
add_watched w none = none
add_watched w (some ws) = some (w ∷ ws)

-- The loop over the descriptors from `fd` on, `left` of them, after `n` that are waited for; none when
-- one of them has no handle.
unfoldable pub watch_fds : List ℕ → FdSet → FdSet → ℕ → ℕ → ℕ → Option (List Watched)
watch_fds fds read_set write_set zero fd n = some []
watch_fds fds read_set write_set (suc left) fd n =
    let events = wanted_events read_set write_set fd in
    let handle = handle_for_fd fds fd in
    let rest = watch_fds fds read_set write_set left (fd + 1) (if events == 0 then n else n + 1) in
    if not (ltb n max_polled)
    then some []
    else if events == 0
    then rest
    else if is_negative64 handle
    then none
    else add_watched (record { fd = fd; handle = handle; events = events }) rest

-- `-1` waits for ever.
unfoldable pub timeout_ms : Option (ℕ × ℕ) → ℕ
timeout_ms none = minus_one
timeout_ms (some (sec, nsec)) = (sec * 1000 + nsec / 1000000) % u64_mod

-- What the kernel found of the descriptors that are waited for.
unfoldable pub found_events : List ℕ → List Watched → ℕ → ℕ
found_events [] watched fd = 0
found_events (revents ∷ found) [] fd = 0
found_events (revents ∷ found) (w ∷ watched) fd =
    let rest = found_events found watched fd in if w.fd == fd then revents else rest

-- A set after the call: a null one stays null.
unfoldable pub ready_set : FdSet → ℕ → List ℕ → List Watched → FdSet
ready_set none event found watched = none
ready_set (some set) event found watched =
    some (λ fd. not (bit_and (found_events found watched fd) event == 0))

unfoldable pub is_given : FdSet → Bool
is_given none = false
is_given (some set) = true

-- The number of descriptors with an event of a set that was given.
unfoldable pub count_ready : Bool → Bool → List ℕ → ℕ
count_ready reads writes [] = 0
count_ready reads writes (revents ∷ found) =
    (if (reads && not (bit_and revents poll_in == 0))
        || (writes && not (bit_and revents poll_out == 0))
      then 1
      else 0)
    + count_ready reads writes found

-- What `pselect` leaves; a third set is cleared.
pub record Selected : Type 0 where
  pub read_set : FdSet
  pub write_set : FdSet
  pub num_events : ℕ

-- The kernel is asked only if something is waited for; its reply's words are the events it found.
unfoldable pub poll_watched : List Watched → ℕ → Action (List ℕ)
poll_watched [] timeout = pure []
poll_watched (w ∷ watched) timeout = do
  r ←
      ask (
        Call.sys_poll (map Watched.handle (w ∷ watched)) (map Watched.events (w ∷ watched)) timeout)
  pure r.words

unfoldable pub select_watched : FdSet → FdSet → Option (List Watched) → ℕ → Action Selected
select_watched read_set write_set none timeout = raise Error.ebadf
select_watched read_set write_set (some watched) timeout = do
  words ← poll_watched watched timeout
  let found = take (length watched) words
  pure (record {
    read_set = ready_set read_set poll_in found watched;
    write_set = ready_set write_set poll_out found watched;
    num_events = count_ready (is_given read_set) (is_given write_set) found;
  })

-- A negative number of descriptors is none.
unfoldable pub pselect : ℕ → FdSet → FdSet → Option (ℕ × ℕ) → Action Selected
pselect num_fds read_set write_set timeout = do
  watched ←
      gets
        (λ p. watch_fds p.fds read_set write_set (if is_negative32 num_fds then 0 else num_fds) 0 0)
  select_watched read_set write_set watched (timeout_ms timeout)

-- The handle of a descriptor of `poll`; -1 is ignored by the kernel.
unfoldable pub poll_handle : List ℕ → ℕ → ℕ
poll_handle fds fd =
    if is_negative32 fd || is_negative64 (handle_for_fd fds fd)
    then minus_one
    else handle_for_fd fds fd

-- The events that were found, and their number as the kernel says it.
unfoldable pub poll_kernel : List ℕ → List ℕ → ℕ → Action (List ℕ × ℕ)
poll_kernel fds events timeout = do
  handles ← gets (λ p. map (poll_handle p.fds) fds)
  r ← ask (Call.sys_poll handles events timeout)
  pure (take (length fds) r.words, r.ret % u32_mod)

unfoldable pub poll_fds : List ℕ → List ℕ → ℕ → Action (List ℕ × ℕ)
poll_fds fds events timeout =
    if length fds == 0
    then pure ([], 0)
    else if ltb max_polled (length fds)
    then raise Error.einval
    else poll_kernel fds events timeout
