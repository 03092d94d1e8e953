-- ===== src/Terminal.antt =====
-- terminal/src/main.cpp: the VT/ANSI terminal emulator. `State` has its data, `Grid` the array of
-- cells, `Screen` the editing operations, `Csi` and `Parser` the escape sequences, `Fit` the
-- resizing, `Keys` the bytes of a key press and `Path` the name of the PTY; the modules below those
-- prove their laws.
pub mod State
pub mod Grid
pub mod Invariant
pub mod Screen
pub mod Csi
pub mod Parser
pub mod Fit
pub mod Keys
pub mod Path
mod Examples
