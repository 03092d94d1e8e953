-- ===== src/Sysdeps/Calls.antt =====
-- The clock, the memory, the processes and the random bytes of sysdeps.cpp in outside/mlibc-sysdeps.
-- A `long` is its pattern of 64 bits; times and sizes that are divided here are not negative.
pub mod Entropy
use i_user_apps.Common.{
  ℕ, zero, suc, ◌+◌, ◌-◌, ◌*◌, ◌/◌, ◌%◌, Bool, true, false, not, ◌&&◌, ◌||◌, List, [], ◌∷◌, ◌++◌,
  ltb, leb, ◌==◌, if◌then◌else◌, length, u32_mod, u64_mod,
}
use i_user_apps.Sysdeps.Kernel.{
  ◌>>=◌, ◌>>◌, Call, Action, Result, ok, err, Error, Done, pure, raise, gets, raise_if, syscall,
  ask, perform, is_negative64, sc_error, reply_to,
}
use i_user_apps.Sysdeps.FdTable.{open_handle, is_negative32, max_fd}
use Prim.Native.Nat.{bit_and}

abbrev pub billion : ℕ
billion = 1000000000

unfoldable pub is_monotonic : ℕ → Bool
is_monotonic clock = clock == 1 || clock == 4 || clock == 7

-- Seconds and nanoseconds.
unfoldable pub split_ns : ℕ → ℕ × ℕ
split_ns ns = (ns / billion, ns % billion)

unfoldable pub split_ms : ℕ → ℕ × ℕ
split_ms ms = (ms / 1000, ms % 1000 * 1000000)

-- The time since the start, from the counter of milliseconds.
unfoldable pub uptime_ms : Action (ℕ × ℕ)
uptime_ms = do r ← ask Call.sys_gettime; pure (split_ms r.ret)

-- The wall clock, from its seconds and the counter of milliseconds, which is read first.
unfoldable pub wall_clock_ms : Action (ℕ × ℕ)
wall_clock_ms = do
  ms ← syscall Call.sys_gettime
  seconds ← ask Call.sys_getunixtime
  pure (seconds.ret, if sc_error ms.ret == 0 then ms.ret % 1000 * 1000000 else 0)

-- Nanoseconds if the kernel has them, or else another way.
unfoldable pub ns_or : Bool → ℕ → Action (ℕ × ℕ) → Action (ℕ × ℕ)
ns_or true ns otherwise = pure (split_ns ns)
ns_or false ns otherwise = otherwise

unfoldable pub read_clock : Call → Action (ℕ × ℕ) → Action (ℕ × ℕ)
read_clock call otherwise = do r ← syscall call; ns_or (sc_error r.ret == 0) r.ret otherwise

unfoldable pub clock_get : ℕ → Action (ℕ × ℕ)
clock_get clock =
    if is_monotonic clock
    then read_clock Call.sys_gettime_ns uptime_ms
    else read_clock Call.sys_getunixtime_ns wall_clock_ms

-- Only the wall clock can be set.
unfoldable pub clock_set : ℕ → ℕ → ℕ → Action Done
clock_set clock secs nanos = do
  raise_if (not (clock == 0) || is_negative64 secs || is_negative64 nanos || leb billion nanos)
      Error.einval
  perform (Call.sys_setunixtime ((secs * billion + nanos) % u64_mod))

-- What is left to sleep.
unfoldable pub sleep : ℕ → ℕ → Action (ℕ × ℕ)
sleep secs nanos = do
  r ← ask (Call.sys_sleep ((secs * 1000 + nanos / 1000000) % u64_mod))
  pure (0, 0)

unfoldable pub map_file : ℕ → ℕ → ℕ → ℕ → ℕ → ℕ → Action ℕ
map_file hint size prot flags fd offset = do
  handle ← open_handle fd
  r ← ask (Call.sys_mmap_file hint size prot flags handle offset)
  pure r.ret

unfoldable pub map_anonymous_pages : ℕ → ℕ → ℕ → Action ℕ
map_anonymous_pages hint size prot = do r ← ask (Call.sys_mmap hint size prot); pure r.ret

unfoldable pub vm_map : ℕ → ℕ → ℕ → ℕ → ℕ → ℕ → Action ℕ
vm_map hint size prot flags fd offset = do
  anonymous ← gets (λ p. not (bit_and flags p.abi.map_anonymous == 0) || is_negative32 fd)
  (if anonymous
      then map_anonymous_pages hint size prot
      else map_file hint size prot flags fd offset)

unfoldable pub vm_unmap : ℕ → ℕ → Action Done
vm_unmap address size = perform (Call.sys_munmap address size)

unfoldable pub vm_protect : ℕ → ℕ → ℕ → Action Done
vm_protect address size prot = perform (Call.sys_mprotect address size prot)

unfoldable pub msync : ℕ → ℕ → ℕ → Action Done
msync address size flags = perform (Call.sys_msync address size flags)

unfoldable pub parse_decimal : List ℕ → ℕ → ℕ
parse_decimal [] result = result
parse_decimal (c ∷ text) result =
    let rest = parse_decimal text ((result * 10 + (c - 48)) % u64_mod) in
    if leb 48 c && leb c 57 then rest else result

-- The numbers of `sysconf` that it knows.
pub data SysconfName : Type 0 where
  open_max child_max processors phys_pages avphys_pages unknown_name : SysconfName

-- Pages of 4 KiB in a number of MiB.
unfoldable pub pages_of : ℕ → ℕ
pages_of mb = mb * 256 % u64_mod

unfoldable pub available_mb : ℕ → ℕ → ℕ
available_mb total used = if ltb used total then total - used else 0

unfoldable pub memory_pages : Bool → ℕ → ℕ → ℕ
memory_pages true total used = pages_of total
memory_pages false total used = pages_of (available_mb total used)

unfoldable pub processor_count : ℕ → ℕ
processor_count ret = if ret == 0 || is_negative64 ret then 1 else ret

-- The kernel's texts of the memory, in MiB: all of it as the bytes of its reply, and what is used as
-- the words.
unfoldable pub memory_info : Bool → Action ℕ
memory_info physical = do
  r ← ask Call.sys_osinfo
  pure (memory_pages physical (parse_decimal r.bytes 0) (parse_decimal r.words 0))

unfoldable pub sysconf : SysconfName → Action ℕ
sysconf open_max = pure max_fd
sysconf child_max = pure 1024
sysconf processors = do r ← syscall Call.sys_cpu_info; pure (processor_count r.ret)
sysconf phys_pages = memory_info true
sysconf avphys_pages = memory_info false
sysconf unknown_name = raise Error.einval

unfoldable pub get_pgid : ℕ → Action ℕ
get_pgid pid = do own ← syscall_if (pid == 0); pure (if pid == 0 then own % u32_mod else pid)
  where
    syscall_if : Bool → Action ℕ
    syscall_if true = do r ← syscall Call.sys_getpid; pure r.ret
    syscall_if false = pure 0

unfoldable pub fork : Action ℕ
fork = do r ← ask Call.sys_fork; pure (r.ret % u32_mod)

unfoldable pub waitpid : ℕ → ℕ → Action (ℕ × List ℕ)
waitpid pid flags = do r ← ask (Call.sys_wait pid flags); pure (r.ret % u32_mod, r.words)

unfoldable pub kill : ℕ → ℕ → Action Done
kill pid sig = perform (Call.sys_kill pid sig)

-- The number of groups, and the groups that are stored; a null list is false.
unfoldable pub groups_result : Bool → Bool → ℕ → Result (ℕ × List ℕ)
groups_result true has_list gid = ok (1, [])
groups_result false true gid = ok (1, gid ∷ [])
groups_result false false gid = err Error.einval

unfoldable pub get_groups : ℕ → Bool → Action (ℕ × List ℕ)
get_groups size has_list p =
    let (r, after) = syscall Call.sys_getgid p in
    (groups_result (size == 0) has_list ((reply_to p Call.sys_getgid).ret % u32_mod), after)

-- The next call's part of `left` bytes.
unfoldable pub entropy_chunk : ℕ → ℕ
entropy_chunk left = if ltb left 256 then left else 256

-- Random bytes, in parts, with the bytes that are left to fill; the list is what the buffer holds.
unfoldable pub entropy_loop : ℕ → ℕ → List ℕ → Action (List ℕ)
entropy_loop zero left buffer = pure buffer
entropy_loop (suc fuel) left buffer = if left == 0 then pure buffer else (do
  r ← ask (Call.sys_getentropy (entropy_chunk left))
  entropy_loop fuel (left - entropy_chunk left) (buffer ++ r.bytes))

-- As much fuel as bytes.
unfoldable pub get_entropy : ℕ → Action (List ℕ)
get_entropy length = entropy_loop length length []
