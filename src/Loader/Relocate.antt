-- ===== src/Loader/Relocate.antt =====
-- `applyRelocation`, `relocateObject`, `protectObject` and `runInit` of ld-instantos/src/main.cpp.
-- What they do to memory is a value: the stores, the protections and the calls, in their order.
pub mod Value
pub mod Stores
use i_user_apps.Common.{
  ℕ, zero, suc, ◌+◌, Bool, true, false, not, ◌||◌, leb, ◌==◌, if◌then◌else◌, Option, some, none,
  List, [], ◌∷◌, ◌++◌, add64,
}
use i_user_apps.Loader.Elf.{
  Symbol, Segment, Object, Relocation, RelocationType, ElfAbi, Views, Kernel, Result, ok, fatal,
  ◌>>=◌, Fatal,
}
use i_user_apps.Loader.Symbols.{lookup_symbol, lookup_symbol_excluding}

pub data Store : Type 0 where
  no_store : Store
  store_word : (target value : ℕ) → Store
  store_bytes : (target source size : ℕ) → Store

abbrev pub weak_binding : ℕ
weak_binding = 2

-- A symbol that is not found is 0 if it is weak.
unfoldable pub symbol_value : ElfAbi → Symbol → Option ℕ → Result ℕ
symbol_value abi sym (some v) = ok v
symbol_value abi sym none =
    if abi.symbol_binding sym.info == weak_binding then ok 0 else fatal Fatal.unresolved_symbol

unfoldable pub symbol_store : ElfAbi → Views → List Object → Object → Relocation → Result Store
symbol_store abi views objects o r =
    let sym = views.symbol_at o.symtab r.symbol in
    if o.symtab == 0 || leb o.symbol_count r.symbol then fatal Fatal.bad_symbol else do
      value ←
          symbol_value abi sym
            (lookup_symbol views objects (views.text_at (add64 o.strtab sym.name)))
      ok (Store.store_word (add64 o.base r.offset) (add64 value r.addend))

unfoldable pub copy_source : Option ℕ → Result ℕ
copy_source none = fatal Fatal.unresolved_copy
copy_source (some v) = ok v

-- `index` is that of the object, that the lookup leaves out.
unfoldable pub copy_store : Views → List Object → ℕ → Object → Relocation → Result Store
copy_store views objects index o r =
    let sym = views.symbol_at o.symtab r.symbol in
    let name = views.text_at (add64 o.strtab sym.name) in
    if o.symtab == 0 || leb o.symbol_count r.symbol then fatal Fatal.bad_symbol else do
      source ← copy_source (lookup_symbol_excluding views objects name (some index))
      ok (Store.store_bytes (add64 o.base r.offset) source sym.size)

unfoldable pub relocation_store :
    ElfAbi → Views → List Object → ℕ → Object → RelocationType → Relocation → Result Store
relocation_store abi views objects index o RelocationType.no_relocation r = ok Store.no_store
relocation_store abi views objects index o RelocationType.relative r =
    ok (Store.store_word (add64 o.base r.offset) (add64 o.base r.addend))
relocation_store abi views objects index o RelocationType.absolute64 r =
    symbol_store abi views objects o r
relocation_store abi views objects index o RelocationType.glob_dat r =
    symbol_store abi views objects o r
relocation_store abi views objects index o RelocationType.jump_slot r =
    symbol_store abi views objects o r
relocation_store abi views objects index o RelocationType.copy r =
    copy_store views objects index o r
relocation_store abi views objects index o RelocationType.other_relocation r =
    fatal Fatal.unsupported_relocation

unfoldable pub apply_relocation :
    ElfAbi → Views → List Object → ℕ → Object → Relocation → Result Store
apply_relocation abi views objects index o r = relocation_store abi views objects index o r.type r

-- A loop over a table, with `n` entries to go from `i`.
unfoldable pub apply_table :
    ElfAbi → Views → List Object → ℕ → Object → ℕ → ℕ → ℕ → Result (List Store)
apply_table abi views objects index o table zero i = ok []
apply_table abi views objects index o table (suc n) i = do
  store ← apply_relocation abi views objects index o (views.relocation_at table i)
  stores ← apply_table abi views objects index o table n (i + 1)
  ok (store ∷ stores)

-- The two loops of `relocateObject`.
unfoldable pub relocate_tables :
    ElfAbi → Views → List Object → ℕ → Object → Result (Object × List Store)
relocate_tables abi views objects index o = do
  relas ← apply_table abi views objects index o o.rela o.rela_count 0
  jumps ← apply_table abi views objects index o o.jmprel o.jmprel_count 0
  ok (record o { relocated = true }, relas ++ jumps)

unfoldable pub relocate_object :
    ElfAbi → Views → List Object → ℕ → Object → Result (Object × List Store)
relocate_object abi views objects index o =
    if o.relocated then ok (o, []) else relocate_tables abi views objects index o

-- The functions of the array that are not null, with `n` to go from `i`.
unfoldable pub init_calls : Views → Object → ℕ → ℕ → List ℕ
init_calls views o zero i = []
init_calls views o (suc n) i =
    let rest = init_calls views o n (i + 1) in
    let function = views.word64_at o.init_array i in if function == 0 then rest else function ∷ rest

-- The object, and the addresses that are called.
unfoldable pub run_init : Views → Object → Object × List ℕ
run_init views o = if o.init_done then (o, []) else (
  record o { init_done = true },
  (if o.init == 0 then [] else o.init ∷ []) ++ init_calls views o o.init_array_count 0,
)
