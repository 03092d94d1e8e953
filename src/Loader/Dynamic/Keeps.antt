-- ===== src/Loader/Dynamic/Keeps.antt =====
-- What `parseDynamic` of ld-instantos/src/main.cpp leaves alone.
use i_user_apps.Common.{◌≡◌, inl, inr, [], arith, ◌==◌, Bool-cases}
use i_user_apps.Loader.Elf.{Object, ElfAbi, Views, ok, >>=-eq-ok, ok-injective}
use i_user_apps.Loader.Dynamic.{
  Scan, scan_entries, scan_start, with_tables, without_tables, collect_needed, parse_dynamic,
}

-- The fields that loading has filled in.
pub record SameImage (o u : Object) : Type 0 where
  pub name : u.name ≡ o.name
  pub base : u.base ≡ o.base
  pub entry : u.entry ≡ o.entry
  pub segments : u.segments ≡ o.segments
  pub relocated : u.relocated ≡ o.relocated
  pub init_done : u.init_done ≡ o.init_done

with_tables-SameImage :
    (abi : ElfAbi) (views : Views) (o u : Object) (s : Scan)
    → with_tables abi views o s ≡ ok u
    → SameImage o u
unfolding with_tables
with_tables-SameImage abi views o u s e = ground arith

-- Reading the dynamic section leaves the name, the base, the entry point and the segments alone.
pub parse_dynamic-SameImage :
    (abi : ElfAbi) (views : Views) (o u : Object) → parse_dynamic abi views o ≡ ok u → SameImage o u
unfolding parse_dynamic without_tables
parse_dynamic-SameImage abi views o u e = elim (Bool-cases (o.dynamic == 0)) [
  | inl static ↦ let same = ok-injective (rw static at e) in ground arith
  | inr dynamic ↦
      let (s, scanned, rest) =
        >>=-eq-ok (scan_entries o.base (views.dynamic_at o.dynamic) (scan_start abi)) _
          (rw dynamic at e) in
      let (tables, found, rest') = >>=-eq-ok (with_tables abi views (without_tables o) s) _ rest in
      let (names, named, last) =
        >>=-eq-ok (collect_needed views s.strtab (views.dynamic_at o.dynamic) []) _ rest' in
      let same = ok-injective last in
      let image = with_tables-SameImage abi views (without_tables o) tables s found in
      ground (arith, image)
]
