-- ===== src/Loader/Main.antt =====
-- `registerMainObject` and `ld_main` of ld-instantos/src/main.cpp. The auxiliary vector is the list
-- of its entries before `AuxNull`.
pub mod Stored
pub mod Order
pub mod Total
use i_user_apps.Common.{
  ℕ, zero, suc, ◌+◌, true, false, not, ◌||◌, ◌==◌, if◌then◌else◌, Option, some, none, List, [], ◌∷◌,
  ◌++◌, add64, sub64,
}
use i_user_apps.Loader.Elf.{
  library_base, ProgramType, Segment, Object, AuxType, AuxEntry, ElfAbi, Views, Kernel, Loader,
  Result, ok, fatal, ◌>>=◌, Fatal, Copy,
}
use i_user_apps.Loader.Dynamic.{parse_dynamic}
use i_user_apps.Loader.Image.{register_object, or_fatal}
use i_user_apps.Loader.Deps.{load_all}
use i_user_apps.Loader.Relocate.{Store, relocate_object, run_init}

pub record AuxScan : Type 0 where
  pub phdr : ℕ
  pub phnum : ℕ
  pub entry : ℕ

unfoldable pub scan_aux_entry : AuxType → ℕ → AuxScan → AuxScan
scan_aux_entry AuxType.aux_phdr v s = record s { phdr = v }
scan_aux_entry AuxType.aux_phnum v s = record s { phnum = v }
scan_aux_entry AuxType.aux_entry v s = record s { entry = v }
scan_aux_entry AuxType.other_aux v s = s

unfoldable pub scan_aux : List AuxEntry → AuxScan → AuxScan
scan_aux [] s = s
scan_aux (e ∷ entries) s = scan_aux entries (scan_aux_entry e.type e.value s)

abbrev or_next : ProgramType → ProgramType → ℕ → Option ℕ → Option ℕ
or_next ProgramType.program_headers ProgramType.program_headers address rest = some address
or_next ProgramType.dynamic_table ProgramType.dynamic_table address rest = some address
or_next wanted type address rest = rest

-- The virtual address of the first header of a type, with `n` headers to go from `i`.
unfoldable pub find_header : Views → ℕ → ProgramType → ℕ → ℕ → Option ℕ
find_header views phdr wanted zero i = none
find_header views phdr wanted (suc n) i =
    let ph = views.program_header_at phdr i in
    or_next wanted ph.type ph.virtual_address (find_header views phdr wanted n (i + 1))

abbrev main_name : List ℕ
main_name = b'<' ∷ b'm' ∷ b'a' ∷ b'i' ∷ b'n' ∷ b'>' ∷ []

abbrev dynamic_address : ℕ → Option ℕ → ℕ
dynamic_address base none = 0
dynamic_address base (some v) = add64 base v

unfoldable pub register_main : ElfAbi → Views → List AuxEntry → Loader → Result Loader
register_main abi views entries st =
    let s = scan_aux entries (record { phdr = 0; phnum = 0; entry = 0 }) in
    if s.phdr == 0 || s.phnum == 0 || s.entry == 0 then fatal Fatal.missing_auxv else do
      first ←
          or_fatal (find_header views s.phdr ProgramType.program_headers s.phnum 0)
            Fatal.missing_base
      o ← register_object st.objects main_name
      let base = sub64 s.phdr first
      parsed ← parse_dynamic abi views (record o {
        base = base;
        entry = s.entry;
        phdr = s.phdr;
        phnum = s.phnum;
        dynamic =
            dynamic_address base (find_header views s.phdr ProgramType.dynamic_table s.phnum 0);
      })
      ok (record st { objects = st.objects ++ (parsed ∷ []) })

-- The relocation loop from object `index` on. The lookups see all objects; they do not read the
-- flag that the loop sets.
unfoldable pub relocate_from :
    ElfAbi → Views → List Object → List Object → ℕ → Result (List Object × List Store)
relocate_from abi views all [] index = ok ([], [])
relocate_from abi views all (o ∷ objects) index = do
  (o', stores) ← relocate_object abi views all index o
  (objects', more) ← relocate_from abi views all objects (index + 1)
  ok (o' ∷ objects', stores ++ more)

-- The segments that `protectObject` has given their protection.
unfoldable pub protect_segments : Kernel → List Segment → Result (List Segment)
protect_segments kernel [] = ok []
protect_segments kernel (s ∷ segments) =
    if not (kernel.mprotect s.address s.size s.protection)
    then fatal Fatal.mprotect_failed
    else do rest ← protect_segments kernel segments; ok (s ∷ rest)

unfoldable pub protect_all : Kernel → List Object → Result (List Segment)
protect_all kernel [] = ok []
protect_all kernel (o ∷ objects) = do
  here ← protect_segments kernel o.segments
  rest ← protect_all kernel objects
  ok (here ++ rest)

unfoldable pub init_all : Views → List Object → List Object × List ℕ
init_all views [] = ([], [])
init_all views (o ∷ objects) =
    let (o', calls) = run_init views o in
    let (objects', more) = init_all views objects in (o' ∷ objects', calls ++ more)

-- The libraries from object 1 on, and then object 0, the main one.
unfoldable pub initialise : Views → List Object → List Object × List ℕ
initialise views [] = ([], [])
initialise views (main ∷ libraries) =
    let (libraries', calls) = init_all views libraries in
    let (main', last) = run_init views main in (main' ∷ libraries', calls ++ last)

abbrev pub libraries_of : List Object → List Object
libraries_of [] = []
libraries_of (main ∷ libraries) = libraries

abbrev pub entry_of : List Object → ℕ
entry_of [] = 0
entry_of (main ∷ libraries) = main.entry

-- What `ld_main` leaves behind: the objects, what it did to memory, the calls, and its result.
pub record Run : Type 0 where
  pub objects : List Object
  pub copies : List Copy
  pub stores : List Store
  pub protected : List Segment
  pub calls : List ℕ
  pub entry : ℕ

-- `ld_main` once all objects are loaded.
unfoldable pub finish : ElfAbi → Kernel → Views → Loader → Result Run
finish abi kernel views st = do
  (objects, stores) ← relocate_from abi views st.objects st.objects 0
  protected ← protect_all kernel (libraries_of objects)
  let (objects', calls) = initialise views objects
  ok (record {
    objects = objects';
    copies = st.copies;
    stores = stores;
    protected = protected;
    calls = calls;
    entry = entry_of objects;
  })

abbrev pub first_loader : Loader
first_loader = record { objects = []; next_base = library_base; copies = [] }

abbrev pub then_finish : ElfAbi → Kernel → Views → Option (Result Loader) → Option (Result Run)
then_finish abi kernel views none = none
then_finish abi kernel views (some r) = some (r >>= finish abi kernel views)

-- `fuel` is that of the dependency loop.
unfoldable pub ld_main : ElfAbi → Kernel → Views → ℕ → List AuxEntry → Option (Result Run)
ld_main abi kernel views fuel entries = elim (register_main abi views entries first_loader) [
  | fatal e ↦ some (fatal e)
  | ok st ↦ then_finish abi kernel views (load_all abi kernel views fuel 0 st)
]
