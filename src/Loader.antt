-- ===== src/Loader.antt =====
-- ld-instantos/src/main.cpp: the dynamic loader. `Elf` has its data and the kernel's and the ELF
-- header's part as parameters, `Text` the C strings, `Image` the loading of an object, `Dynamic` its
-- tables, `Symbols` the lookup, `Deps` the dependencies, `Relocate` the relocations and `Main` the
-- order of the whole.
pub mod Elf
pub mod Text
pub mod Dynamic
pub mod Image
pub mod Symbols
pub mod Deps
pub mod Relocate
pub mod Main
mod Examples
