-- ===== src/Sysdeps/Kernel.antt =====
-- What the port of the C library in outside/mlibc-sysdeps/instantos/sysdeps.cpp works with: its
-- system calls and the kernel's replies, its own state, and actions on it. The kernel is a parameter,
-- a function from the calls that were made and the next one to the reply. An `int` or a `long` is its
-- pattern of bits, and a path is the list of its bytes before the NUL.
use i_user_apps.Common.{
  ℕ, List, ◌∷◌, Bool, true, false, ◌-◌, ◌^◌, not, ltb, leb, ◌==◌, if◌then◌else◌, u64_mod,
}

-- An entry of a directory, `instantos_dirent`; `type` is the kernel's number of it.
pub record KernelEntry : Type 0 where
  pub name : List ℕ
  pub inode : ℕ
  pub type : ℕ

-- The system calls. A target is a path or a handle; what a call writes is in its reply.
pub data Call : Type 0 where
  sys_read : (handle size : ℕ) → Call
  sys_recv sys_recvfrom : (handle size flags : ℕ) → Call
  sys_write : (handle : ℕ) (bytes : List ℕ) → Call
  sys_send : (handle : ℕ) (bytes : List ℕ) (flags : ℕ) → Call
  sys_sendto : (handle : ℕ) (bytes : List ℕ) (flags : ℕ) (address : List ℕ) → Call
  sys_open sys_mknod : (path : List ℕ) (flags mode : ℕ) → Call
  sys_close sys_fsync sys_dup sys_fstat sys_winsize sys_statfs_handle : (handle : ℕ) → Call
  sys_fd_path : (handle size : ℕ) → Call
  sys_seek : (handle offset whence : ℕ) → Call
  sys_chdir sys_rmdir sys_unlink sys_stat sys_lstat sys_statfs_path : (path : List ℕ) → Call
  sys_readdir sys_readlink : (path : List ℕ) (size : ℕ) → Call
  sys_getcwd : (size : ℕ) → Call
  sys_mkdir sys_access : (path : List ℕ) (mode : ℕ) → Call
  sys_rename sys_link sys_symlink : (path new_path : List ℕ) → Call
  sys_chmod_path sys_truncate_path : (path : List ℕ) (value : ℕ) → Call
  sys_chmod_handle sys_truncate_handle : (handle value : ℕ) → Call
  sys_chown_path : (path : List ℕ) (owner group flags : ℕ) → Call
  sys_chown_handle : (handle owner group flags : ℕ) → Call
  sys_utime_path : (path : List ℕ) (atime mtime : ℕ) → Call
  sys_utime_handle : (handle atime mtime : ℕ) → Call
  sys_fcntl sys_ioctl : (handle request arg : ℕ) → Call
  sys_dup2 : (handle target : ℕ) → Call
  sys_pipe : Call
  sys_poll : (handles events : List ℕ) (timeout : ℕ) → Call
  sys_fdtable_stash : (fds : List ℕ) → Call
  sys_fdtable_fetch : Call
  sys_exec : (path : List ℕ) (argv envp : List (List ℕ)) → Call
  sys_fork sys_getpid sys_getgid sys_getuid sys_gettime sys_gettime_ns sys_getunixtime : Call
  sys_getunixtime_ns sys_cpu_info sys_osinfo : Call
  sys_wait : (pid flags : ℕ) → Call
  sys_kill : (pid sig : ℕ) → Call
  sys_sleep sys_setunixtime sys_getentropy : (value : ℕ) → Call
  sys_mmap : (hint size prot : ℕ) → Call
  sys_mmap_file : (hint size prot flags handle offset : ℕ) → Call
  sys_munmap : (address size : ℕ) → Call
  sys_mprotect sys_msync : (address size value : ℕ) → Call
  sys_socket sys_socketpair : (family type protocol : ℕ) → Call
  sys_bind sys_connect : (handle : ℕ) (address : List ℕ) → Call
  sys_listen sys_shutdown : (handle value : ℕ) → Call
  sys_accept : (handle : ℕ) → Call
  sys_getsockopt : (handle level option : ℕ) → Call
  sys_ioctl_buffer : (handle request : ℕ) (buffer : List ℕ) → Call
  sys_sendmsg : (handle : ℕ) (bytes handles : List ℕ) (flags : ℕ) → Call
  sys_recvmsg : (handle size capacity flags : ℕ) → Call

-- What a call returns, and what it writes: bytes, words, and entries of a directory.
pub record Reply : Type 0 where
  pub ret : ℕ
  pub bytes : List ℕ
  pub words : List ℕ
  pub entries : List KernelEntry

abbrev pub Log : Type 0
Log = List (Call × Reply)

-- Numbers of the C library's headers, which are not in this repository.
pub record Abi : Type 0 where
  pub eagain : ℕ
  pub eintr : ℕ
  pub eopnotsupp : ℕ
  pub f_dupfd : ℕ
  pub f_dupfd_cloexec : ℕ
  pub f_getfl : ℕ
  pub o_nonblock : ℕ
  pub pollout : ℕ
  pub pollerr_hup : ℕ
  pub sol_socket : ℕ
  pub so_type : ℕ
  pub so_error : ℕ
  pub sock_dgram : ℕ
  pub map_anonymous : ℕ
  pub symlink_nofollow : ℕ

-- The errors that the source names, and the others, which the kernel returned.
pub data Error : Type 0 where
  ebadf emfile einval enotty enomem erange einprogress econnrefused : Error
  kernel_error : (code : ℕ) → Error

pub data Result (A : Type 0) : Type 0 where
  ok : A → Result A
  err : Error → Result A

-- A directory that is read; `entries` holds `count` entries from the kernel once it is loaded.
pub record DirStream : Type 0 where
  pub in_use : Bool
  pub loaded : Bool
  pub from_fd : Bool
  pub owner_fd : ℕ
  pub cursor : ℕ
  pub path : List ℕ
  pub entries : List KernelEntry

-- The process: the tables of the C library, its umask, and the calls it made, the last one first.
pub record Process : Type 0 where
  pub kernel : Log → Call → Reply
  pub abi : Abi
  pub calls : Log
  pub fds : List ℕ
  pub dirs : List DirStream
  pub umask : ℕ

abbrev pub Action : Type 0 → Type 0
Action A = Process → Result A × Process

abbrev pub Done : Type 0
Done = Unit {0}

module _ {A : Type 0} where
  abbrev pub pure : A → Action A
  pure a p = (ok a, p)

  abbrev pub raise : Error → Action A
  raise e p = (err e, p)

  abbrev pub gets : (Process → A) → Action A
  gets f p = (ok (f p), p)

abbrev pub continue : {A B : Type 0} → Result A × Process → (A → Action B) → Result B × Process
continue (ok a, p) f = f a p
continue (err e, p) f = (err e, p)

infixl 5 ◌>>=◌ ◌>>◌
abbrev pub ◌>>=◌ : {A B : Type 0} → Action A → (A → Action B) → Action B
◌>>=◌ m f p = continue (m p) f

abbrev pub ◌>>◌ : {A B : Type 0} → Action A → Action B → Action B
m >> k = m >>= λ _. k

abbrev pub modify : (Process → Process) → Action Done
modify f p = (ok tt, f p)

abbrev pub raise_if : Bool → Error → Action Done
raise_if true e p = (err e, p)
raise_if false e p = (ok tt, p)

abbrev pub reply_to : Process → Call → Reply
reply_to p call = p.kernel p.calls call

-- `__do_syscall`: any result, also an error, is a value.
unfoldable pub syscall : Call → Action Reply
syscall call p = (ok (reply_to p call), record p { calls = (call, reply_to p call) ∷ p.calls })

abbrev pub minus_one : ℕ
minus_one = u64_mod - 1

abbrev pub is_negative64 : ℕ → Bool
is_negative64 n = leb (2 ^ 63) n

-- The error number that a result stands for, or 0.
unfoldable pub sc_error : ℕ → ℕ
sc_error ret = if ltb (u64_mod - 4096) ret then u64_mod - ret else 0

-- `if (int e = sc_error(ret); e) return e;`.
unfoldable pub check : ℕ → Action Done
check ret = raise_if (not (sc_error ret == 0)) (kernel_error (sc_error ret))

-- A call whose error is returned.
unfoldable pub ask : Call → Action Reply
ask call = do r ← syscall call; check r.ret; pure r

-- `return sc_error(ret);`.
unfoldable pub perform : Call → Action Done
perform call = do r ← syscall call; check r.ret
