-- ===== src/Compositor.antt =====
-- graphics-compositor/src: the compositor. `Pixels` has the copy of a row of pixels to the
-- framebuffer, `Texts` the names and the date, `Present` the parts of the scene that are copied, `Window` the windows and their frames, `Surfaces` what the programs drew in them,
-- `Taskbar` the task bar, and `Input` what the pointer does.
pub mod Pixels
pub mod Texts
pub mod Window
pub mod Present
pub mod Surfaces
pub mod Taskbar
pub mod Input
mod Examples
