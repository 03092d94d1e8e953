-- ===== src/Loader/Examples.antt =====
-- The theorems on ld-instantos/src/main.cpp at small files and objects.
use i_user_apps.Common.{
  ℕ, ◌+◌, ◌*◌, ◌/◌, ◌≡◌, refl, ◌⊎◌, true, false, Option, none, some, List, [], ◌∷◌, arith, ◌==◌,
  if◌then◌else◌, length, get_or, add64,
}
use i_user_apps.Loader.Elf.{
  library_base, library_stride, ObjectType, ProgramHeader, ProgramType, Object, Symbol, File,
  ElfAbi, Views, Kernel, Loader, Result, ok, fatal, Relocation, RelocationType, AuxEntry, AuxType,
}
use i_user_apps.Common.CString.{copy_from}
use i_user_apps.Loader.Text.{equal_from, cstr_equal, copy_string, append_string}
use i_user_apps.Loader.Dynamic.{parse_dynamic, without_tables}
use i_user_apps.Loader.Image.{
  align_down, align_up, protection_from_elf, validate_elf, map_memory, or_fatal, register_object,
  push_segment, map_segment, map_segments, find_table, find_tables, mapped_object, load_object,
  read_whole_file, file_size,
}
use i_user_apps.Loader.Image.Library.{AddedLibrary, load_object-AddedLibrary}
use i_user_apps.Loader.Symbols.{
  matches, symbol_address, find_symbol, lookup_in, lookup_from, lookup_symbol_excluding,
  lookup_symbol,
}
use i_user_apps.Loader.Symbols.First.{FirstObject, Answered, lookup_symbol_excluding-Answered}
use i_user_apps.Loader.Deps.{
  load_all, load_needed, load_dependency, load_file, dependency_path, resolve_soname, find_object,
  libm_so_6,
}
use i_user_apps.Loader.Deps.Closure.{Closes, load_fuel, load_all-closed}
use i_user_apps.Loader.Relocate.{
  Store, apply_relocation, relocation_store, symbol_store, symbol_value, relocate_object,
  relocate_tables, apply_table, run_init, init_calls,
}
use i_user_apps.Loader.Relocate.Value.{WeakMissing, apply_relocation-value}
use i_user_apps.Loader.Main.{
  Run, ld_main, register_main, scan_aux, scan_aux_entry, find_header, finish, relocate_from,
  protect_all, initialise, init_all,
}
use i_user_apps.Loader.Main.Total.{EndsWell, ld_main_complete}

abbrev elf64 : ElfAbi
elf64 = record {
  magic0 = 127;
  magic1 = b'E';
  magic2 = b'L';
  magic3 = b'F';
  class64 = 2;
  little_endian = 1;
  version_current = 1;
  machine_x86_64 = 62;
  header_size = 64;
  program_header_size = 56;
  rela_size = 24;
  flag_read = 4;
  flag_write = 2;
  flag_execute = 1;
  symbol_binding = λ info. info / 16;
}

abbrev ident_bytes : ℕ → ℕ
ident_bytes i = get_or (127 ∷ b'E' ∷ b'L' ∷ b'F' ∷ 2 ∷ 1 ∷ 1 ∷ []) i 0

abbrev text_header : ProgramHeader
text_header = record {
  type = ProgramType.load;
  flags = 5;
  offset = 0;
  virtual_address = 4096;
  file_size = 512;
  memory_size = 1024;
}

abbrev library_file : File
library_file = record {
  size = 4096;
  header = record {
    ident = ident_bytes;
    type = ObjectType.shared;
    machine = 62;
    entry = 0;
    program_header_offset = 64;
    program_header_entry_size = 56;
    program_header_count = 1;
  };
  program_header = λ j. text_header;
}

-- Every file is the library above, and every mapping succeeds, at a free place if none is asked for.
abbrev willing_kernel : Kernel
willing_kernel = record {
  stat = λ path. some 4096;
  mmap = λ address size prot. some (if address == 0 then 65536 else address);
  mprotect = λ address size prot. true;
  open_file = λ path. some 3;
  read = λ handle size. size;
  contents = λ handle size. library_file;
}

-- Symbol 1 has no section, symbol 2 is called "a"; all names are "a".
abbrev one_symbol : ℕ → ℕ → Symbol
one_symbol table i = record {
  name = 1;
  info = 16;
  section_index = if i == 2 then 5 else 0;
  value = 256;
  size = 8;
}

abbrev small_views : Views
small_views = record {
  dynamic_at = λ address. [];
  text_at = λ address. b'a' ∷ [];
  word32_at = λ address i. 0;
  symbol_at = one_symbol;
  relocation_at = λ address i. record {
    type = RelocationType.no_relocation;
    symbol = 0;
    offset = 0;
    addend = 0;
  };
  program_header_at = λ address i. text_header;
  word64_at = λ address i. 0;
}

abbrev object_at : ℕ → List (List ℕ) → Object
object_at base needed = record {
  name = b'm' ∷ [];
  base = base;
  entry = 0;
  phdr = 0;
  phnum = 0;
  dynamic = 0;
  strtab = base + 100;
  symtab = base + 200;
  symbol_count = 3;
  rela = 0;
  rela_count = 0;
  jmprel = 0;
  jmprel_count = 0;
  init_array = 0;
  init_array_count = 0;
  init = 0;
  needed = needed;
  segments = [];
  relocated = false;
  init_done = false;
}

abbrev fresh_loader : List Object → Loader
fresh_loader objects = record { objects = objects; next_base = library_base; copies = [] }

abbrev loaded_state : Loader
loaded_state = record {
  objects =
      record (object_at library_base []) {
        name = libm_so_6;
        entry = library_base;
        phdr = library_base + 64;
        phnum = 1;
        strtab = 0;
        symtab = 0;
        symbol_count = 0;
        segments = record { address = library_base + 4096; size = 4096; protection = 5 } ∷ [];
      }
      ∷ [];
  next_base = library_base + 2 * library_stride;
  copies = record { target = library_base + 4096; offset = 0; size = 512 } ∷ [];
}

load_object-AddedLibrary_example : AddedLibrary (fresh_loader []) loaded_state
unfolding load_object validate_elf register_object map_segments map_segment map_memory or_fatal
    push_segment mapped_object find_tables find_table parse_dynamic without_tables copy_string
    align_down align_up protection_from_elf copy_from
load_object-AddedLibrary_example =
    load_object-AddedLibrary elf64 willing_kernel small_views libm_so_6 8192 library_file
      library_base (fresh_loader []) loaded_state refl refl (omega arith) (omega arith)
      (λ j loads. omega arith) refl

abbrev two_objects : List Object
two_objects = object_at 4096 [] ∷ object_at 8192 [] ∷ []

-- Object 0 is left out, as for a copy relocation.
lookup_symbol_excluding-Answered_example :
    Answered small_views
      (b'a' ∷ [])
      (some 0)
      two_objects
      (lookup_symbol_excluding small_views two_objects (b'a' ∷ []) (some 0))
lookup_symbol_excluding-Answered_example =
    lookup_symbol_excluding-Answered small_views two_objects (b'a' ∷ []) (some 0)

-- The main object needs two files, one of them under an alias.
abbrev needy_loader : Loader
needy_loader = fresh_loader (object_at 4096 (libm_so_6 ∷ (b'x' ∷ []) ∷ []) ∷ [])

load_all-closed_example :
    (r : Result Loader) × (load_all elf64 willing_kernel small_views load_fuel 0 needy_loader
      ≡ some r)
    × Closes needy_loader r
load_all-closed_example =
    load_all-closed elf64 willing_kernel small_views needy_loader (omega arith)

abbrev loaded_count : Option (Result Loader) → ℕ
loaded_count none = 0
loaded_count (some (fatal e)) = 0
loaded_count (some (ok st)) = length st.objects

load_all_count :
    loaded_count (load_all elf64 willing_kernel small_views load_fuel 0 needy_loader) ≡ 3
unfolding load_all load_needed load_dependency load_file read_whole_file file_size dependency_path
    resolve_soname find_object load_object validate_elf register_object map_segments map_segment
    map_memory or_fatal push_segment mapped_object find_tables find_table parse_dynamic
    without_tables copy_string append_string align_down align_up protection_from_elf copy_from
    cstr_equal equal_from
load_all_count = refl

abbrev jump_relocation : Relocation
jump_relocation = record { type = RelocationType.jump_slot; symbol = 2; offset = 64; addend = 3 }

apply_relocation-value_example :
    (value : ℕ) × (Store.store_word (8192 + 64) (4096 + 256 + 3)
      ≡ Store.store_word (add64 8192 64) (add64 value 3))
    × (FirstObject small_views (b'a' ∷ []) none two_objects 0 value
        ⊎ WeakMissing elf64 small_views two_objects (object_at 8192 []) jump_relocation value)
unfolding apply_relocation relocation_store symbol_store symbol_value lookup_symbol
    lookup_symbol_excluding lookup_from lookup_in find_symbol matches symbol_address cstr_equal
    equal_from
apply_relocation-value_example =
    apply_relocation-value elf64 small_views two_objects 1 (object_at 8192 []) jump_relocation
      (Store.store_word (8192 + 64) (4096 + 256 + 3)) refl refl

-- The program headers of the main object are at 70000, its first maps them, and it has no others.
abbrev main_aux : List AuxEntry
main_aux =
    record { type = AuxType.aux_phdr; value = 70000 }
    ∷ record { type = AuxType.aux_phnum; value = 1 }
    ∷ record { type = AuxType.aux_entry; value = 80000 }
    ∷ []

abbrev main_views : Views
main_views = record small_views {
  program_header_at =
      λ address i. record text_header { type = ProgramType.program_headers; virtual_address = 64 };
}

ld_main_complete_example :
    (r : Result Run) × (ld_main elf64 willing_kernel main_views load_fuel main_aux ≡ some r)
    × EndsWell elf64 main_views r
ld_main_complete_example = ld_main_complete elf64 willing_kernel main_views main_aux

abbrev run_entry : Option (Result Run) → ℕ
run_entry none = 0
run_entry (some (fatal e)) = 0
run_entry (some (ok run)) = run.entry

ld_main_entry : run_entry (ld_main elf64 willing_kernel main_views load_fuel main_aux) ≡ 80000
unfolding ld_main register_main scan_aux scan_aux_entry find_header or_fatal register_object
    parse_dynamic without_tables load_all load_needed finish relocate_from relocate_object
    relocate_tables apply_table protect_all initialise init_all run_init init_calls
ld_main_entry = refl
