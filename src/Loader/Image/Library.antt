-- ===== src/Loader/Image/Library.antt =====
-- Loading a shared library (ld-instantos/src/main.cpp): a range of addresses of its own.
use i_user_apps.Common.{
  ℕ, zero, suc, ◌+◌, ◌*◌, ◌%◌, ◌≤◌, ◌≡◌, refl, ◌∙◌, subst, inl, inr, true, false, List, [], ◌∷◌,
  ◌++◌, arith, Bool-cases, All, All-map, u64_mod, add64,
}
use i_user_apps.Loader.Elf.{
  library_stride, ProgramType, ProgramHeader, Object, ElfAbi, Kernel, Views, File, Loader, ok,
  fatal, Fatal, >>=-eq-ok, ok-injective,
}
use i_user_apps.Loader.Dynamic.{parse_dynamic}
use i_user_apps.Loader.Dynamic.Keeps.{SameImage, parse_dynamic-SameImage}
use i_user_apps.Loader.Image.{
  validate_elf, register_object, Mapping, map_segments, mapped_object, find_table, find_tables,
  load_object, is_shared, is_load, align_up,
}
use i_user_apps.Loader.Image.Placement.{
  SegmentFits, Within, Within-mono, Placed, map_segments-Placed,
}

find_table-segments :
    (base : ℕ) (type : ProgramType) (ph : ProgramHeader) (o : Object)
    → (find_table base type ph o).segments ≡ o.segments
unfolding find_table
find_table-segments base ProgramType.load ph o = refl
find_table-segments base _ ph o = refl

find_tables-segments :
    (base : ℕ) (f : File) (n i : ℕ) (o : Object) → (find_tables base f n i o).segments ≡ o.segments
unfolding find_tables
find_tables-segments base f zero i o = refl
find_tables-segments base f (suc n) i o =
    find_tables-segments base f n (i + 1) _
    ∙ find_table-segments base (f.program_header i).type (f.program_header i) o

mapped_object-segments :
    (f : File) (base : ℕ) (o : Object) (m : Mapping)
    → (mapped_object f base o m).segments ≡ m.segments
unfolding mapped_object
mapped_object-segments f base o m = find_tables-segments base f _ 0 _

align_up_stride :
    (v : ℕ)
    → v + library_stride ≤ u64_mod
    → (v ≤ align_up v library_stride) × (align_up v library_stride % library_stride ≡ 0)
unfolding align_up
align_up_stride v h = omega arith

-- `st'` has one more object, with all its segments between the old and the new base, which are at
-- least a stride apart and both multiples of it.
pub record AddedLibrary (st st' : Loader) : Type 0 where
  pub object : Object
  pub objects : st'.objects ≡ st.objects ++ (object ∷ [])
  pub segments : All (Within st.next_base st'.next_base) object.segments
  pub next : st.next_base + library_stride ≤ st'.next_base
  pub aligned : st'.next_base % library_stride ≡ 0

Placed-AddedLibrary :
    (st : Loader) (f : File) (base : ℕ) (o parsed : Object) (m start : Mapping)
    → Placed base start m
    → start.max_address ≡ base
    → st.next_base ≡ base
    → SameImage (mapped_object f base o m) parsed
    → AddedLibrary st (record {
      objects = st.objects ++ (parsed ∷ []);
      next_base = align_up (add64 m.max_address library_stride) library_stride;
      copies = m.copies;
    })
Placed-AddedLibrary st f base o parsed m start placed starts at same =
    let top = add64 m.max_address library_stride in
    let grows : base ≤ m.max_address = rw starts at placed.grows in
    let up = align_up_stride top (omega (arith, placed.room)) in
    let high : m.max_address ≤ align_up top library_stride = omega (arith, up, placed.room) in
    let next : base + library_stride ≤ align_up top library_stride =
      omega (arith, up, placed.room, grows) in
    let raised =
      All-map (Within base m.max_address) (Within base (align_up top library_stride)) m.segments
        (Within-mono base m.max_address _ high) placed.within in
    let segments = same.segments ∙ mapped_object-segments f base o m in
    record {
      object = parsed;
      objects = refl;
      segments = rw (at, segments) raised;
      next = rw at next;
      aligned = up.1;
    }

-- The steps of a load that succeeds.
record Loaded (abi : ElfAbi) (kernel : Kernel) (views : Views) (f : File) (base : ℕ)
    (st st' : Loader) : Type 0 where
  o : Object
  m : Mapping
  parsed : Object
  mapped :
      map_segments abi kernel base f f.header.program_header_count 0
        (record { segments = []; max_address = base; copies = st.copies })
      ≡ ok m
  tables : parse_dynamic abi views (mapped_object f base o m) ≡ ok parsed
  after :
      record {
        objects = st.objects ++ (parsed ∷ []);
        next_base = align_up (add64 m.max_address library_stride) library_stride;
        copies = m.copies;
      }
      ≡ st'

load_object-Loaded :
    (abi : ElfAbi) (kernel : Kernel) (views : Views) (name : List ℕ) (address : ℕ) (f : File)
    (base : ℕ) (st st' : Loader)
    → is_shared f.header.type ≡ true
    → validate_elf abi address f ≡ true
    → load_object abi kernel views name address f base st ≡ ok st'
    → Loaded abi kernel views f base st st'
unfolding load_object
load_object-Loaded abi kernel views name address f base st st' shared good e =
    let e' = rw (good, shared) at e in
    let (o, registered, rest) = >>=-eq-ok (register_object st.objects name) _ e' in
    let (m, mapped, rest') =
      >>=-eq-ok (map_segments abi kernel base f f.header.program_header_count 0 _) _ rest in
    let (parsed, tables, last) =
      >>=-eq-ok (parse_dynamic abi views (mapped_object f base o m)) _ rest' in
    record {
      o = o;
      m = m;
      parsed = parsed;
      mapped = mapped;
      tables = tables;
      after = ok-injective last;
    }

load_object-fatal :
    (abi : ElfAbi) (kernel : Kernel) (views : Views) (name : List ℕ) (address : ℕ) (f : File)
    (base : ℕ) (st : Loader)
    → validate_elf abi address f ≡ false
    → load_object abi kernel views name address f base st ≡ fatal Fatal.invalid_elf
unfolding load_object
load_object-fatal abi kernel views name address f base st bad = rw bad

-- A shared library that is loaded at the next base, a multiple of the stride with room for two
-- more, gets a range of addresses of its own, if its segments fit under the end of the address
-- space: they lie between the old and the new next base, which is at least a stride higher and a
-- multiple of it.
pub load_object-AddedLibrary :
    (abi : ElfAbi) (kernel : Kernel) (views : Views) (name : List ℕ) (address : ℕ) (f : File)
    (base : ℕ) (st st' : Loader)
    → is_shared f.header.type ≡ true
    → st.next_base ≡ base
    → base % library_stride ≡ 0
    → base + 2 * library_stride ≤ u64_mod
    → ((j : ℕ) → is_load (f.program_header j).type ≡ true → SegmentFits base (f.program_header j))
    → load_object abi kernel views name address f base st ≡ ok st'
    → AddedLibrary st st'
load_object-AddedLibrary abi kernel views name address f base st st' shared at aligned room fits e =
    elim (Bool-cases (validate_elf abi address f)) [
      | inr bad ↦ let failed = load_object-fatal abi kernel views name address f base st bad in cc
      | inl good ↦
          let steps =
            load_object-Loaded abi kernel views name address f base st st' shared good e in
          let start : Mapping = record { segments = []; max_address = base; copies = st.copies } in
          let placed =
            map_segments-Placed abi kernel base f _ 0 start steps.m (omega arith) fits room tt
              steps.mapped in
          let same = parse_dynamic-SameImage abi views _ steps.parsed steps.tables in
          subst (AddedLibrary st) steps.after
            (Placed-AddedLibrary st f base steps.o steps.parsed steps.m start placed refl at same)
    ]
