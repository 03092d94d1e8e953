-- ===== src/Browser.antt =====
-- file-browser/src/main.cpp: the file browser. `Text` has its functions on names, `Entries` the order
-- of a folder's entries, `FolderPath` the paths, `State` and `Events` the window; the modules below
-- those prove their laws.
pub mod Text
pub mod Entries
pub mod FolderPath
pub mod State
pub mod Events
mod Examples
