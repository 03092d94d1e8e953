-- ===== src/Loader/Dynamic.antt =====
-- `parseDynamic` of ld-instantos/src/main.cpp.
pub mod Keeps
use i_user_apps.Common.{
  ℕ, ◌/◌, Bool, not, ◌||◌, leb, ◌==◌, if◌then◌else◌, List, [], ◌∷◌, ◌++◌, length, map, add64,
}
use i_user_apps.Loader.Elf.{
  DynamicEntry, DynamicTag, Object, ElfAbi, Views, Result, ok, fatal, ◌>>=◌, Fatal, max_needed,
}

-- The tables as the first loop finds them, its locals included.
pub record Scan : Type 0 where
  pub strtab : ℕ
  pub symtab : ℕ
  pub hash : ℕ
  pub rela : ℕ
  pub rela_size : ℕ
  pub rela_ent : ℕ
  pub jmprel : ℕ
  pub jmprel_size : ℕ
  pub init_array : ℕ
  pub init_array_size : ℕ
  pub init : ℕ

unfoldable pub scan_start : ElfAbi → Scan
scan_start abi = record {
  strtab = 0;
  symtab = 0;
  hash = 0;
  rela = 0;
  rela_size = 0;
  rela_ent = abi.rela_size;
  jmprel = 0;
  jmprel_size = 0;
  init_array = 0;
  init_array_size = 0;
  init = 0;
}

-- The switch of the first loop.
unfoldable pub scan_entry : ℕ → DynamicTag → ℕ → Scan → Result Scan
scan_entry base DynamicTag.str_tab v s = ok (record s { strtab = add64 base v })
scan_entry base DynamicTag.sym_tab v s = ok (record s { symtab = add64 base v })
scan_entry base DynamicTag.hash v s = ok (record s { hash = add64 base v })
scan_entry base DynamicTag.rela v s = ok (record s { rela = add64 base v })
scan_entry base DynamicTag.rela_size v s = ok (record s { rela_size = v })
scan_entry base DynamicTag.rela_ent v s = ok (record s { rela_ent = v })
scan_entry base DynamicTag.jmp_rel v s = ok (record s { jmprel = add64 base v })
scan_entry base DynamicTag.plt_rel_size v s = ok (record s { jmprel_size = v })
scan_entry base DynamicTag.init_array v s = ok (record s { init_array = add64 base v })
scan_entry base DynamicTag.init_array_size v s = ok (record s { init_array_size = v })
scan_entry base DynamicTag.init v s = ok (record s { init = add64 base v })
scan_entry base DynamicTag.rel v s = fatal Fatal.rel_unsupported
scan_entry base DynamicTag.rel_size v s = fatal Fatal.rel_unsupported
scan_entry base DynamicTag.rel_ent v s = fatal Fatal.rel_unsupported
scan_entry base DynamicTag.needed v s = ok s
scan_entry base DynamicTag.other_tag v s = ok s

unfoldable pub scan_entries : ℕ → List DynamicEntry → Scan → Result Scan
scan_entries base [] s = ok s
scan_entries base (e ∷ entries) s = scan_entry base e.tag e.value s >>= scan_entries base entries

-- The second loop: the names behind `DynamicNeeded`, at most `MAX_NEEDED`.
unfoldable pub add_needed : Views → ℕ → DynamicTag → ℕ → List (List ℕ) → Result (List (List ℕ))
add_needed views strtab DynamicTag.needed v names =
    if leb max_needed (length names)
    then fatal Fatal.too_many_dependencies
    else ok (names ++ (views.text_at (add64 strtab v) ∷ []))
add_needed views strtab _ v names = ok names

unfoldable pub collect_needed :
    Views → ℕ → List DynamicEntry → List (List ℕ) → Result (List (List ℕ))
collect_needed views strtab [] names = ok names
collect_needed views strtab (e ∷ entries) names =
    add_needed views strtab e.tag e.value names >>= collect_needed views strtab entries

abbrev pointer_size : ℕ
pointer_size = 8

-- The object with its tables cleared.
unfoldable pub without_tables : Object → Object
without_tables o = record o {
  strtab = 0;
  symtab = 0;
  symbol_count = 0;
  rela = 0;
  rela_count = 0;
  jmprel = 0;
  jmprel_count = 0;
  init_array = 0;
  init_array_count = 0;
  init = 0;
  needed = [];
}

-- Between the two loops: the checks, and the counts.
unfoldable pub with_tables : ElfAbi → Views → Object → Scan → Result Object
with_tables abi views o s =
    if s.strtab == 0 || s.symtab == 0 || s.hash == 0
    then fatal Fatal.missing_tables
    else if not (s.rela_ent == abi.rela_size)
    then fatal Fatal.bad_rela_size
    else ok (record o {
      strtab = s.strtab;
      symtab = s.symtab;
      symbol_count = views.word32_at s.hash 1;
      rela = s.rela;
      rela_count = s.rela_size / abi.rela_size;
      jmprel = s.jmprel;
      jmprel_count = s.jmprel_size / abi.rela_size;
      init_array = s.init_array;
      init_array_count = s.init_array_size / pointer_size;
      init = s.init;
    })

unfoldable pub parse_dynamic : ElfAbi → Views → Object → Result Object
parse_dynamic abi views object =
    let o = without_tables object in
    let entries = views.dynamic_at o.dynamic in
    if o.dynamic == 0 then ok o else do
      s ← scan_entries o.base entries (scan_start abi)
      tables ← with_tables abi views o s
      names ← collect_needed views s.strtab entries []
      ok (record tables { needed = names })
