-- ===== src/Loader/Image/Headers.antt =====
-- What the checks of ld-instantos/src/main.cpp on an ELF file guarantee.
use i_user_apps.Common.{ℕ, ◌+◌, ◌*◌, ◌≤◌, ◌<◌, ◌≡◌, arith, true, u64_mod}
use i_user_apps.Loader.Elf.{ElfAbi, File, ProgramHeader, Kernel, ok}
use i_user_apps.Loader.Image.{validate_elf, map_segment, Mapping}

-- A file that is accepted has its whole program header table inside: the end of the table, in
-- which no sum has wrapped around, is at most its size; and the table is not empty.
pub validate_elf-bounds :
    (abi : ElfAbi) (address : ℕ) (f : File)
    → f.header.program_header_offset < u64_mod
    → f.header.program_header_entry_size * f.header.program_header_count < u64_mod
    → validate_elf abi address f ≡ true
    → (f.header.program_header_offset
          + f.header.program_header_entry_size * f.header.program_header_count
        ≤ f.size)
      × (f.header.program_header_entry_size ≡ abi.program_header_size)
      × (0 < f.header.program_header_count)
unfolding validate_elf
validate_elf-bounds abi address f ho hs e = ground arith

-- A segment that is mapped lies inside its file and fills at most its memory, if the end of its
-- part of the file does not wrap around.
pub map_segment-in_file :
    (abi : ElfAbi) (kernel : Kernel) (size base : ℕ) (ph : ProgramHeader) (m m' : Mapping)
    → ph.offset + ph.file_size < u64_mod
    → map_segment abi kernel size base ph m ≡ ok m'
    → (ph.offset + ph.file_size ≤ size) × (ph.file_size ≤ ph.memory_size)
unfolding map_segment
map_segment-in_file abi kernel size base ph m m' h e = ground arith
