-- ===== src/Sysdeps.antt =====
-- outside/mlibc-sysdeps/instantos: the system layer of the C library.
pub mod Kernel
pub mod FdTable
pub mod Paths
pub mod Files
pub mod Directory
pub mod Poll
pub mod Calls
pub mod Sockets
pub mod Messages
pub mod Ioctl
mod Examples
