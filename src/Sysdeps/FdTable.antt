-- ===== src/Sysdeps/FdTable.antt =====
-- The table from file descriptors to kernel handles in sysdeps.cpp of outside/mlibc-sysdeps, and the
-- calls that make, copy and close descriptors.
pub mod Lowest
pub mod Unused
pub mod Overwrite
pub mod Keep
pub mod Pipe
use i_user_apps.Common.{
  ℕ, ◌+◌, ◌/◌, ◌%◌, ◌^◌, Bool, true, false, not, ◌&&◌, ◌||◌, Option, none, some, List, [], ◌∷◌, ltb,
  leb, ◌==◌, if◌then◌else◌, get_or, set, u32_mod,
}
use i_user_apps.Sysdeps.Kernel.{
  ◌>>=◌, ◌>>◌, Call, Action, ok, Error, Done, pure, raise, gets, modify, raise_if, syscall, ask,
  perform, minus_one, is_negative64,
}

abbrev pub max_fd : ℕ
max_fd = 256

unfoldable pub handle_for_fd : List ℕ → ℕ → ℕ
handle_for_fd fds fd = if ltb fd max_fd then get_or fds fd 0 else minus_one

-- `long handle = handle_for_fd(fd); if (handle < 0) return EBADF;`.
unfoldable pub open_handle : ℕ → Action ℕ
open_handle fd = do
  handle ← gets (λ p. handle_for_fd p.fds fd)
  raise_if (is_negative64 handle) Error.ebadf
  pure handle

unfoldable pub instantos_fd_handle : List ℕ → ℕ → ℕ
instantos_fd_handle fds fd =
    if not (ltb fd max_fd) || (get_or fds fd 0 == 0 && ltb 2 fd) then minus_one else get_or fds fd 0

-- The loop of `register_fd_min`, with the entries from `fd` on.
unfoldable pub free_from : List ℕ → ℕ → ℕ → Option ℕ
free_from [] fd min = none
free_from (handle ∷ fds) fd min =
    let rest = free_from fds (fd + 1) min in if leb min fd && handle == 0 then some fd else rest

abbrev pub is_negative32 : ℕ → Bool
is_negative32 n = leb (2 ^ 31) n

-- The entry is none for -1.
unfoldable pub take_entry : ℕ → List ℕ → Option ℕ → Option ℕ × List ℕ
take_entry handle fds none = (none, fds)
take_entry handle fds (some fd) = (some fd, set fds fd handle)

unfoldable pub register_fd_min : ℕ → ℕ → List ℕ → Option ℕ × List ℕ
register_fd_min handle min fds =
    take_entry handle fds (free_from fds 0 (if is_negative32 min then 0 else min))

unfoldable pub register_fd : ℕ → List ℕ → Option ℕ × List ℕ
register_fd handle fds = register_fd_min handle 3 fds

unfoldable pub instantos_handle_fd : ℕ → List ℕ → Option ℕ × List ℕ
instantos_handle_fd handle fds =
    if is_negative64 handle then (none, fds) else register_fd handle fds

unfoldable pub register_fd_at : ℕ → ℕ → List ℕ → Option ℕ × List ℕ
register_fd_at fd handle fds = if ltb fd max_fd then (some fd, set fds fd handle) else (none, fds)

-- An action on the table.
unfoldable pub on_fds : {A : Type 0} → (List ℕ → A × List ℕ) → Action A
on_fds change p = let (a, fds) = change p.fds in (ok a, record p { fds = fds })

unfoldable pub set_fd : ℕ → ℕ → Action Done
set_fd fd handle = modify (λ p. record p { fds = set p.fds fd handle })

unfoldable pub keep_or_close : ℕ → Option ℕ → Action ℕ
keep_or_close handle none = do syscall (Call.sys_close handle); raise Error.emfile
keep_or_close handle (some fd) = pure fd

-- A handle that a call gave becomes a descriptor of at least `min`, or is closed.
unfoldable pub keep_handle : ℕ → ℕ → Action ℕ
keep_handle handle min = do fd ← on_fds (register_fd_min handle min); keep_or_close handle fd

unfoldable pub open_file : List ℕ → ℕ → ℕ → Action ℕ
open_file path flags mode = do r ← ask (Call.sys_open path flags mode); keep_handle r.ret 3

unfoldable pub dup_fd : ℕ → Action ℕ
dup_fd fd = do handle ← open_handle fd; r ← ask (Call.sys_dup handle); keep_handle r.ret 3

-- The kernel's call for `newfd`.
unfoldable pub dup2_call : ℕ → ℕ → ℕ → Call
dup2_call handle target newfd =
    if not (target == 0) || ltb newfd 3
    then Call.sys_dup2 handle (if target == 0 then newfd else target)
    else Call.sys_dup handle

unfoldable pub dup2_fd : ℕ → ℕ → Action Done
dup2_fd fd newfd = do
  handle ← open_handle fd
  raise_if (not (ltb newfd max_fd)) Error.ebadf
  target ← gets (λ p. get_or p.fds newfd 0)
  r ← ask (dup2_call handle target newfd)
  _ ← on_fds (register_fd_at newfd r.ret)
  pure tt

-- The end of a pipe that got a descriptor, when the other one got none.
unfoldable pub close_end : Option ℕ → ℕ → Action Done
close_end none handle = pure tt
close_end (some fd) handle = do syscall (Call.sys_close handle); set_fd fd 0

unfoldable pub keep_pipe : Option ℕ → Option ℕ → ℕ → ℕ → Action (ℕ × ℕ)
keep_pipe (some r) (some w) first second = pure (r, w)
keep_pipe r w first second = do close_end r first; close_end w second; raise Error.emfile

unfoldable pub pipe_fds : Action (ℕ × ℕ)
pipe_fds = do
  reply ← ask Call.sys_pipe
  r ← on_fds (register_fd (get_or reply.words 0 0))
  w ← on_fds (register_fd (get_or reply.words 1 0))
  keep_pipe r w (get_or reply.words 0 0) (get_or reply.words 1 0)

-- The second end is only registered when the first one was.
unfoldable pub second_end : Option ℕ → ℕ → Action (Option ℕ)
second_end none handle = pure none
second_end (some fd) handle = on_fds (register_fd handle)

unfoldable pub forget_end : Option ℕ → Action Done
forget_end none = pure tt
forget_end (some fd) = set_fd fd 0

unfoldable pub keep_pair : Option ℕ → Option ℕ → ℕ → ℕ → Action (ℕ × ℕ)
keep_pair (some a) (some b) first second = pure (a, b)
keep_pair a b first second = do
  forget_end a
  syscall (Call.sys_close first)
  syscall (Call.sys_close second)
  raise Error.emfile

unfoldable pub socketpair_fds : ℕ → ℕ → ℕ → Action (ℕ × ℕ)
socketpair_fds domain type protocol = do
  reply ← ask (Call.sys_socketpair domain type protocol)
  a ← on_fds (register_fd (get_or reply.words 0 0))
  b ← second_end a (get_or reply.words 1 0)
  keep_pair a b (get_or reply.words 0 0) (get_or reply.words 1 0)

unfoldable pub socket_fd : ℕ → ℕ → ℕ → Action ℕ
socket_fd family type protocol = do
  r ← ask (Call.sys_socket family type protocol)
  keep_handle r.ret 3

-- What is stored as the peer's address is left out.
unfoldable pub accept_fd : ℕ → Action ℕ
accept_fd fd = do handle ← open_handle fd; r ← ask (Call.sys_accept handle); keep_handle r.ret 3

unfoldable pub fcntl_result : Bool → ℕ → ℕ → Action ℕ
fcntl_result true handle min = keep_handle handle min
fcntl_result false value min = pure (value % u32_mod)

-- `arg` is a `long`, of which a descriptor is the lower half.
unfoldable pub fcntl_fd : ℕ → ℕ → ℕ → Action ℕ
fcntl_fd fd request arg = do
  handle ← open_handle fd
  r ← ask (Call.sys_fcntl handle request arg)
  copies ← gets (λ p. request == p.abi.f_dupfd || request == p.abi.f_dupfd_cloexec)
  fcntl_result copies r.ret (arg % u32_mod)

-- The words that the kernel gave replace as many entries; there are at most as many as entries.
abbrev pub overwrite : List ℕ → List ℕ → List ℕ
overwrite [] new = []
overwrite (x ∷ xs) [] = x ∷ xs
overwrite (x ∷ xs) (y ∷ new) = y ∷ overwrite xs new

-- `__instantos_restore_fdtable`.
unfoldable pub restore_fdtable : Action Done
restore_fdtable = do
  r ← syscall Call.sys_fdtable_fetch
  modify (λ p. record p { fds = overwrite p.fds r.words })

unfoldable pub execve : List ℕ → List (List ℕ) → List (List ℕ) → Action Done
execve path argv envp = do
  fds ← gets (λ p. p.fds)
  syscall (Call.sys_fdtable_stash fds)
  perform (Call.sys_exec path argv envp)

-- A descriptor of the GPU's calls as the kernel's slot; none for -1.
unfoldable pub slot_for_fd : List ℕ → ℕ → Option ℕ
slot_for_fd fds fd =
    let handle = handle_for_fd fds fd in
    if is_negative64 handle || handle == 0 || not (handle / 2 ^ 48 == 1)
    then none
    else some (handle % 2 ^ 32)

-- A slot that the kernel gave, as a new descriptor; both are none for -1.
unfoldable pub fd_for_slot : ℕ → Action (Option ℕ)
fd_for_slot slot = do
  let handle = 2 ^ 48 + slot
  fd ← (if is_negative32 slot then pure none else on_fds (register_fd handle))
  keep_slot (is_negative32 slot) handle fd
  where
    keep_slot : Bool → ℕ → Option ℕ → Action (Option ℕ)
    keep_slot true handle fd = pure none
    keep_slot false handle (some fd) = pure (some fd)
    keep_slot false handle none = do syscall (Call.sys_close handle); pure none
