-- ===== src/Loader/Elf.antt =====
-- The data of ld-instantos/src/main.cpp. The constants and sizes of common/elf.hpp are a parameter;
-- its tags and types, that the source only switches on, are constructors. A pointer is its address,
-- and 0 is the null pointer.
use i_user_apps.Common.{ℕ, Bool, List, Option, ◌≡◌, refl, ◌⊎◌, inl, inr}

abbrev pub page_size : ℕ
page_size = 4096

abbrev pub library_base : ℕ
library_base = 0x0000_5800_0000_0000

abbrev pub library_stride : ℕ
library_stride = 0x0000_0000_0400_0000

abbrev pub max_objects : ℕ
max_objects = 16

abbrev pub max_segments : ℕ
max_segments = 16

abbrev pub max_needed : ℕ
max_needed = 16

-- Why the loader gives up: the argument of `fatal`.
pub data Fatal : Type 0 where
  mmap_failed mprotect_failed stat_failed open_failed read_failed : Fatal
  rel_unsupported missing_tables bad_rela_size too_many_dependencies : Fatal
  too_many_objects invalid_elf bad_segment too_many_segments : Fatal
  bad_symbol unresolved_symbol unresolved_copy unsupported_relocation : Fatal
  missing_auxv missing_base : Fatal

pub data Result {ℓ} (A : Type ℓ) : Type ℓ where
  ok : A → Result A
  fatal : Fatal → Result A

infixl 5 ◌>>=◌
abbrev pub ◌>>=◌ {ℓ κ} : {A : Type ℓ} {B : Type κ} → Result A → (A → Result B) → Result B
ok a >>= f = f a
fatal e >>= f = fatal e

-- The constants of common/elf.hpp that the loader compares with.
pub record ElfAbi : Type 0 where
  pub magic0 : ℕ
  pub magic1 : ℕ
  pub magic2 : ℕ
  pub magic3 : ℕ
  pub class64 : ℕ
  pub little_endian : ℕ
  pub version_current : ℕ
  pub machine_x86_64 : ℕ
  pub header_size : ℕ
  pub program_header_size : ℕ
  pub rela_size : ℕ
  pub flag_read : ℕ
  pub flag_write : ℕ
  pub flag_execute : ℕ
  pub symbol_binding : ℕ → ℕ

pub data ObjectType : Type 0 where
  executable shared other_type : ObjectType

pub record Header : Type 0 where
  pub ident : ℕ → ℕ
  pub type : ObjectType
  pub machine : ℕ
  pub entry : ℕ
  pub program_header_offset : ℕ
  pub program_header_entry_size : ℕ
  pub program_header_count : ℕ

pub data ProgramType : Type 0 where
  load dynamic_table program_headers other_program : ProgramType

pub record ProgramHeader : Type 0 where
  pub type : ProgramType
  pub flags : ℕ
  pub offset : ℕ
  pub virtual_address : ℕ
  pub file_size : ℕ
  pub memory_size : ℕ

pub data DynamicTag : Type 0 where
  needed str_tab sym_tab hash rela rela_size rela_ent jmp_rel plt_rel_size : DynamicTag
  init_array init_array_size init rel rel_size rel_ent other_tag : DynamicTag

-- `value` and `pointer` are one field of the source's union.
pub record DynamicEntry : Type 0 where
  pub tag : DynamicTag
  pub value : ℕ

pub record Symbol : Type 0 where
  pub name : ℕ
  pub info : ℕ
  pub section_index : ℕ
  pub value : ℕ
  pub size : ℕ

pub record Segment : Type 0 where
  pub address : ℕ
  pub size : ℕ
  pub protection : ℕ

pub record Object : Type 0 where
  pub name : List ℕ
  pub base : ℕ
  pub entry : ℕ
  pub phdr : ℕ
  pub phnum : ℕ
  pub dynamic : ℕ
  pub strtab : ℕ
  pub symtab : ℕ
  pub symbol_count : ℕ
  pub rela : ℕ
  pub rela_count : ℕ
  pub jmprel : ℕ
  pub jmprel_count : ℕ
  pub init_array : ℕ
  pub init_array_count : ℕ
  pub init : ℕ
  pub needed : List (List ℕ)
  pub segments : List Segment
  pub relocated : Bool
  pub init_done : Bool

pub data RelocationType : Type 0 where
  no_relocation relative absolute64 glob_dat jump_slot copy other_relocation : RelocationType

pub record Relocation : Type 0 where
  pub type : RelocationType
  pub symbol : ℕ
  pub offset : ℕ
  pub addend : ℕ

pub data AuxType : Type 0 where
  aux_phdr aux_phnum aux_entry other_aux : AuxType

pub record AuxEntry : Type 0 where
  pub type : AuxType
  pub value : ℕ

-- A file in memory, as the loader reads it: its size, its header and its program headers.
pub record File : Type 0 where
  pub size : ℕ
  pub header : Header
  pub program_header : ℕ → ProgramHeader

-- What the loader reads through pointers into mapped objects: the dynamic entries up to
-- `DynamicNull`, the C string at an address, the 32-bit words of a hash table, the entries of a
-- symbol and of a relocation table (an addend as its 64 bits), the program headers in memory, and
-- the words of an array of pointers.
pub record Views : Type 0 where
  pub dynamic_at : ℕ → List DynamicEntry
  pub text_at : ℕ → List ℕ
  pub word32_at : ℕ → ℕ → ℕ
  pub symbol_at : ℕ → ℕ → Symbol
  pub relocation_at : ℕ → ℕ → Relocation
  pub program_header_at : ℕ → ℕ → ProgramHeader
  pub word64_at : ℕ → ℕ → ℕ

-- The kernel's answers: the size of a file by its path, whether a mapping and a protection succeed, a handle, the
-- bytes that a read returns, and what it leaves in the buffer.
pub record Kernel : Type 0 where
  pub stat : List ℕ → Option ℕ
  pub mmap : ℕ → ℕ → ℕ → Option ℕ
  pub mprotect : ℕ → ℕ → ℕ → Bool
  pub open_file : List ℕ → Option ℕ
  pub read : ℕ → ℕ → ℕ
  pub contents : ℕ → ℕ → File

-- `size` bytes of a file from `offset` on, copied to address `target`.
pub record Copy : Type 0 where
  pub target : ℕ
  pub offset : ℕ
  pub size : ℕ

-- The loader's globals, and the copies from a file to memory that it has made.
pub record Loader : Type 0 where
  pub objects : List Object
  pub next_base : ℕ
  pub copies : List Copy

-- The parts of a successful chain.
pub >>=-eq-ok {ℓ κ} :
    {A : Type ℓ} {B : Type κ} (r : Result A) (f : A → Result B) {b : B}
    → (r >>= f) ≡ ok b
    → (a : A) × (r ≡ ok a) × (f a ≡ ok b)
>>=-eq-ok (ok a) f h = (a, refl, h)
>>=-eq-ok (fatal e) f h = cc

pub ok-injective {ℓ} : {A : Type ℓ} {a b : A} → ok a ≡ ok b → a ≡ b
ok-injective h = cc

pub Result-cases {ℓ} :
    {A : Type ℓ} (r : Result A) → ((a : A) × (r ≡ ok a)) ⊎ ((e : Fatal) × (r ≡ fatal e))
Result-cases (ok a) = inl (a, refl)
Result-cases (fatal e) = inr (e, refl)
