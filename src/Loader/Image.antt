-- ===== src/Loader/Image.antt =====
-- `validateElf`, `readWholeFile`, `registerObject` and `loadObjectFromMemory` of
-- ld-instantos/src/main.cpp. Every alignment is a power of two, by which `& ~(alignment - 1)` drops
-- the remainder.
pub mod Headers
pub mod Placement
pub mod Library
use Prim.Native.Nat.{bit_and}
use i_user_apps.Common.{
  ℕ, zero, suc, ◌+◌, ◌-◌, ◌*◌, ◌%◌, Bool, true, false, not, ◌&&◌, ◌||◌, ltb, leb, ◌==◌,
  if◌then◌else◌, Option, some, none, List, [], ◌∷◌, ◌++◌, length, add64, sub64,
}
use i_user_apps.Loader.Elf.{
  page_size, library_stride, max_objects, max_segments, Header, ObjectType, ProgramHeader,
  ProgramType, Segment, Object, File, ElfAbi, Views, Kernel, Loader, Copy, Result, ok, fatal, ◌>>=◌,
  Fatal,
}
use i_user_apps.Loader.Text.{copy_string}
use i_user_apps.Loader.Dynamic.{parse_dynamic}

unfoldable pub align_down : ℕ → ℕ → ℕ
align_down value alignment = value - value % alignment

unfoldable pub align_up : ℕ → ℕ → ℕ
align_up value alignment = let raised = add64 value (alignment - 1) in raised - raised % alignment

abbrev prot_read : ℕ
prot_read = 1

abbrev prot_write : ℕ
prot_write = 2

abbrev prot_execute : ℕ
prot_execute = 4

-- The three bits are distinct, so `|=` adds them.
unfoldable pub protection_from_elf : ElfAbi → ℕ → ℕ
protection_from_elf abi flags =
    (if bit_and flags abi.flag_read == 0 then 0 else prot_read)
    + (if bit_and flags abi.flag_write == 0 then 0 else prot_write)
    + (if bit_and flags abi.flag_execute == 0 then 0 else prot_execute)

abbrev is_loadable : ObjectType → Bool
is_loadable ObjectType.executable = true
is_loadable ObjectType.shared = true
is_loadable ObjectType.other_type = false

-- `address` is that of the file, 0 if there is none.
unfoldable pub validate_elf : ElfAbi → ℕ → File → Bool
validate_elf abi address f =
    let h = f.header in
    let end_of_headers =
      add64 h.program_header_offset (h.program_header_entry_size * h.program_header_count) in
    not (address == 0)
    && leb abi.header_size f.size
    && (h.ident 0 == abi.magic0
        && h.ident 1 == abi.magic1
        && h.ident 2 == abi.magic2
        && h.ident 3 == abi.magic3
        && h.ident 4 == abi.class64
        && h.ident 5 == abi.little_endian
        && h.ident 6 == abi.version_current)
    && (h.machine == abi.machine_x86_64
        && h.program_header_entry_size == abi.program_header_size
        && not (h.program_header_count == 0))
    && is_loadable h.type
    && (leb end_of_headers f.size && leb h.program_header_offset end_of_headers)

unfoldable pub or_fatal {ℓ} : {A : Type ℓ} → Option A → Fatal → Result A
or_fatal none e = fatal e
or_fatal (some a) e = ok a

unfoldable pub map_memory : Kernel → ℕ → ℕ → ℕ → Result ℕ
unfolding or_fatal
map_memory kernel address size prot = or_fatal (kernel.mmap address size prot) Fatal.mmap_failed

-- `SysStat`, that fails for an empty file as for a missing one.
unfoldable pub file_size : Kernel → List ℕ → Result ℕ
file_size kernel path = elim (kernel.stat path) [
  | none ↦ fatal Fatal.stat_failed
  | some size ↦ if size == 0 then fatal Fatal.stat_failed else ok size
]

-- The address of the buffer, and the file in it.
unfoldable pub read_whole_file : Kernel → List ℕ → Result (ℕ × File)
unfolding or_fatal
read_whole_file kernel path = do
  size ← file_size kernel path
  buffer ← map_memory kernel 0 (align_up size page_size) (prot_read + prot_write)
  handle ← or_fatal (kernel.open_file path) Fatal.open_failed
  if kernel.read handle size == size
      then ok (buffer, record (kernel.contents handle size) { size = size })
      else fatal Fatal.read_failed

abbrev pub name_capacity : ℕ
name_capacity = 64

-- `objects[objectCount]`, cleared, with its name.
unfoldable pub register_object : List Object → List ℕ → Result Object
register_object objects name =
    if leb max_objects (length objects)
    then fatal Fatal.too_many_objects
    else ok (record {
      name = copy_string [] name_capacity (some name);
      base = 0;
      entry = 0;
      phdr = 0;
      phnum = 0;
      dynamic = 0;
      strtab = 0;
      symtab = 0;
      symbol_count = 0;
      rela = 0;
      rela_count = 0;
      jmprel = 0;
      jmprel_count = 0;
      init_array = 0;
      init_array_count = 0;
      init = 0;
      needed = [];
      segments = [];
      relocated = false;
      init_done = false;
    })

-- The locals of the segment loop.
pub record Mapping : Type 0 where
  pub segments : List Segment
  pub max_address : ℕ
  pub copies : List Copy

abbrev pub map_start : ℕ → ProgramHeader → ℕ
map_start base ph = align_down (add64 base ph.virtual_address) page_size

abbrev pub map_size : ℕ → ProgramHeader → ℕ
map_size base ph =
    align_up (add64 (sub64 (add64 base ph.virtual_address) (map_start base ph)) ph.memory_size)
      page_size

-- The segment of a `ProgramLoad` header, its copy, and the end of what is mapped.
unfoldable pub push_segment : ElfAbi → ℕ → ProgramHeader → Mapping → Mapping
push_segment abi base ph m =
    let end_of_map = add64 (map_start base ph) (map_size base ph) in
    record {
      segments =
          m.segments
          ++ (record {
            address = map_start base ph;
            size = map_size base ph;
            protection = protection_from_elf abi ph.flags;
          }
              ∷ []);
      max_address = if ltb m.max_address end_of_map then end_of_map else m.max_address;
      copies =
          m.copies
          ++ (record {
            target = add64 base ph.virtual_address;
            offset = ph.offset;
            size = ph.file_size;
          }
              ∷ []);
    }

-- One `ProgramLoad` header. (The source makes the copy before it looks for room for the segment.)
unfoldable pub map_segment : ElfAbi → Kernel → ℕ → ℕ → ProgramHeader → Mapping → Result Mapping
map_segment abi kernel size base ph m =
    if ltb ph.memory_size ph.file_size || ltb size (add64 ph.offset ph.file_size)
    then fatal Fatal.bad_segment
    else do
      _ ←
          map_memory kernel (map_start base ph) (map_size base ph)
            (prot_read + prot_write + prot_execute)
      if leb max_segments (length m.segments)
          then fatal Fatal.too_many_segments
          else ok (push_segment abi base ph m)

abbrev pub is_load : ProgramType → Bool
is_load ProgramType.load = true
is_load _ = false

-- The segment loop, with `n` headers to go from `i`.
unfoldable pub map_segments : ElfAbi → Kernel → ℕ → File → ℕ → ℕ → Mapping → Result Mapping
map_segments abi kernel base f zero i m = ok m
map_segments abi kernel base f (suc n) i m = do
  let ph = f.program_header i
  m' ← (if is_load ph.type then map_segment abi kernel f.size base ph m else ok m)
  map_segments abi kernel base f n (i + 1) m'

unfoldable pub find_table : ℕ → ProgramType → ProgramHeader → Object → Object
find_table base ProgramType.dynamic_table ph o = record o {
  dynamic = add64 base ph.virtual_address;
}
find_table base ProgramType.program_headers ph o = record o { phdr = add64 base ph.virtual_address }
find_table base _ ph o = o

-- The loop that finds the dynamic section and the program headers in memory.
unfoldable pub find_tables : ℕ → File → ℕ → ℕ → Object → Object
find_tables base f zero i o = o
find_tables base f (suc n) i o =
    find_tables base f n (i + 1) (find_table base (f.program_header i).type (f.program_header i) o)

abbrev pub is_shared : ObjectType → Bool
is_shared ObjectType.shared = true
is_shared _ = false

-- The object once its segments are mapped, before its tables are read.
unfoldable pub mapped_object : File → ℕ → Object → Mapping → Object
mapped_object f base o m =
    let h = f.header in
    let o' = find_tables base f h.program_header_count 0 (record o {
      base = base;
      entry = add64 base h.entry;
      phnum = h.program_header_count;
      segments = m.segments;
    }) in
    record o' { phdr = if o'.phdr == 0 then add64 base h.program_header_offset else o'.phdr }

abbrev pub load_base : ObjectType → ℕ → ℕ
load_base type preferred_base = if is_shared type then preferred_base else 0

abbrev pub base_after : ObjectType → ℕ → ℕ → ℕ
base_after type max_address next_base =
    if is_shared type then align_up (add64 max_address library_stride) library_stride else next_base

unfoldable pub load_object :
    ElfAbi → Kernel → Views → List ℕ → ℕ → File → ℕ → Loader → Result Loader
load_object abi kernel views name address f preferred_base st =
    let h = f.header in
    let base = load_base h.type preferred_base in
    if not (validate_elf abi address f) then fatal Fatal.invalid_elf else do
      o ← register_object st.objects name
      m ←
          map_segments abi kernel base f h.program_header_count 0
            (record { segments = []; max_address = base; copies = st.copies })
      parsed ← parse_dynamic abi views (mapped_object f base o m)
      ok (record {
        objects = st.objects ++ (parsed ∷ []);
        next_base = base_after h.type m.max_address st.next_base;
        copies = m.copies;
      })
