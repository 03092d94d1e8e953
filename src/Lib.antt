-- ===== src/Lib.antt =====
-- The verification library of the iUserApps programs, the user programs of InstantOS.
--
-- The programs are separate executables that work together through the kernel: the compositor draws
-- windows and routes input, services run in the background, the dynamic loader starts every
-- program, and programs such as the terminal open windows. The C library reaches the kernel by its
-- port, that every program uses. Three of the programs are modelled, the font service, the port,
-- and the parts of the compositor that decide what is shown and what an event does. In a terminal,
-- bytes become cells; in the loader, files become a program in memory; in the file browser, a
-- folder becomes rows.
--
-- Terminal (terminal/src/main.cpp), the VT/ANSI terminal emulator. Its state is the `Terminal` of
-- the source: the array of cells, the size, the cursor, the colours, the parser and the range of
-- dirty rows. One function stands for each function of the source, under its name: `touch_rows`,
-- `clear_row`, `scroll_up`, `newline`, `put_char` in Terminal/Screen; `apply_sgr` and `handle_csi`
-- in Terminal/Csi, a function for each case of the switch; `parser_feed` and `feed_bytes` in
-- Terminal/Parser; `fit_grid` in Terminal/Fit; `key_sequence` and `translate_key` in Terminal/Keys;
-- `build_pts_path` in Terminal/Path. Terminal/State has the data and Terminal/Grid the array: a
-- cell by its row and column, and a mark `faulted` that an access out of bounds sets.
-- Terminal/Invariant says when a terminal is valid and when no repaint is missed. The window of the
-- terminal, its PTY and its shell are I/O on top of these functions and are not modelled.
--
-- Loader (ld-instantos/src/main.cpp), the dynamic loader. Loader/Elf has its data: the objects, the
-- next base and what was copied from files to memory. The constants and accessors of
-- `common/elf.hpp`, that is not in this repository, are a parameter `ElfAbi`; the kernel's answers
-- are a parameter `Kernel`; what the loader reads through pointers into mapped memory is a
-- parameter `Views`, that does not change while the loader runs. `fatal` is a result. Loader/Text
-- has `cstrEqual`, `copyString` and `appendString`; Loader/Dynamic `parseDynamic`; Loader/Image
-- `validateElf`, `readWholeFile`, `registerObject` and `loadObjectFromMemory`; Loader/Symbols
-- `lookupSymbolExcluding`; Loader/Deps `resolveSoname`, `loadDependency` and the dependency loop of
-- `ld_main`; Loader/Relocate `applyRelocation`, `relocateObject` and `runInit`, whose effects are
-- values, the stores and the calls in their order; Loader/Main `registerMainObject`,
-- `protectObject` and `ld_main`. The walk of `registerMainObject` over the arguments and the
-- environment to the auxiliary vector is not modelled: the vector is an argument.
--
-- Browser (file-browser/src/main.cpp), the file browser. Browser/Text has its functions on names
-- and sizes, Browser/Entries `compare_names`, `entry_before` and `sort_entries`, Browser/FolderPath
-- `build_child_path` and `build_parent_path`. Browser/State has the fields of `FileBrowser` and
-- what `load_directory`, `apply_filter` and `show_status` do with them, Browser/Events `navigate`,
-- `go_back`, `go_forward`, `open_parent`, `open_place`, `open_entry`, `on_key_down` and the
-- callbacks that `on_create` sets, as the function `handle` of an event. The system is a parameter
-- `FileSystem`, that may differ at each event. The list and the text box of the UI library keep the
-- selected row and the search text, which are fields of the state; the focus, the breadcrumb's
-- layout and the painting are not modelled.
--
-- Compositor (graphics-compositor/src): Compositor/Pixels has `present_texel_row_to_framebuffer` of
-- graphics-compositor/src/render_primitives.cpp, the copy of a row of pixels by vectors of four.
-- Compositor/Texts has `has_png_suffix` and `append_text` of the same file and `format_date` of
-- scene.cpp; Compositor/Present has `present_rect_to_framebuffer` of presentation.cpp and
-- `present_to_framebuffer` of buffers.cpp, that copy rows of the scene with it; Compositor/Window
-- the windows and rectangles of common.hpp and the geometry of a window's frame;
-- Compositor/Surfaces the surface cache of surface.cpp, from `find_surface_cache` to
-- `consume_surface_dirty_rect`; Compositor/Taskbar the layout and the tiles of the task bar in
-- scene.cpp, and Compositor/Taskbar/Click its hits, tooltips and clicks; Compositor/Input the tests
-- of input.cpp on what is under the pointer, Compositor/Input/Route `route_pointer_to_window`,
-- Compositor/Input/Hover `update_control_hover`, and Compositor/Input/Handle
-- `handle_pointer_event`, `move_cursor` of presentation.cpp, and `handlePointerEventMessage` of
-- main.cpp that calls them in turn. An `int` is its 32 bits, with wrap-around. The methods of
-- `ui::Rect` are a parameter `Geometry`; what the kernel is asked to do is a list of values `Call`,
-- and whether it does so a parameter.
--
-- These parts work together: `route_pointer_to_window` and `handle_pointer_event` both ask the task
-- bar first, as it is drawn over the windows, and the first is called before the second may begin a
-- drag.
--
-- Sysdeps (outside/mlibc-sysdeps/instantos/sysdeps.cpp), the port of the C library. Sysdeps/Kernel
-- has the system calls as values, the replies and the state of the C library in a process; the
-- kernel is a parameter, a function from the calls that were made to the next reply, so that it may
-- have any state. An operation is an action: it makes calls, changes the state, and ends with a
-- value or an error. What an operation stores through a pointer is its value, and a pointer that
-- may be null and is not followed is left out. Sysdeps/FdTable has the table of descriptors, from
-- `handle_for_fd` to `register_fd_at`, and `Open`, `Dup`, `Dup2`, `Pipe`, `Socketpair`, `Socket`,
-- `Accept`, `Fcntl` and `Execve`, named `open_file`, `dup_fd` and so on; Sysdeps/Paths has
-- `at_resolve`, `fd_to_path` and the calls relative to a directory; Sysdeps/Files those on open
-- files; Sysdeps/Directory the directory streams, `OpenDir`, `ReadEntries` and `Close`;
-- Sysdeps/Poll `Pselect` and `Poll`; Sysdeps/Sockets the sockets and the blocking `Connect`,
-- Sysdeps/Messages `MsgSend` and `MsgRecv`, Sysdeps/Ioctl `Ioctl`; Sysdeps/Calls the clock, the
-- memory, the processes and the random bytes. The numbers of the C library's headers are a
-- parameter `Abi`.
--
-- FontManager (font-manager/src/main.cpp), the font service: its checks of requests, its replies,
-- and the loop of the service over the messages that it receives. The shapes of the glyphs and the
-- protocol are parameters.
--
-- Common has what they share: lists over the native numbers, machine integers with their
-- wrap-around written out, and decimal texts.
--
-- Fuel: the tab loop has 8 rounds, as a tab stop is at most 8 columns away; the shrinking loop of
-- `fit_grid` has as many as the cursor's row, that falls in each; the digit loops have 10 and 20,
-- the digits of a `uint32_t` and of a `uint64_t`; the loops of the row copy as many as there are
-- pixels; `get_entropy` has one round for each byte, and the wait of `connect_socket` takes its
-- fuel as an argument, as it may have to wait for ever; the dependency loop of the loader has one
-- more than the 16 objects there can be. The theorems on these functions show that the fuel is
-- enough.
--
-- Not modelled: the controls and the breadcrumb of the file browser; the drawing, the GPU backends
-- and the main loop of the compositor, the other programs; of the port of the C library signals,
-- threads, and calls that only pass their arguments on; and the tests and the C programs.
pub mod Common
pub mod Terminal
pub mod Loader
pub mod Browser
pub mod Compositor
pub mod Sysdeps
pub mod FontManager
