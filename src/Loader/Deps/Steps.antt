-- ===== src/Loader/Deps/Steps.antt =====
-- What one load and one dependency of ld-instantos/src/main.cpp add to the objects.
use i_user_apps.Common.{append_nil, append_assoc, take_all}
use i_user_apps.Common.{
  ℕ, zero, suc, ◌+◌, ◌-◌, ◌≤◌, ◌<◌, ◌≡◌, refl, sym, ap, ◌∙◌, subst, inl, inr, false, some, List, [],
  ◌∷◌, ◌++◌, arith, Bool-cases, Option-cases, length, length-append, All, All-append,
}
use i_user_apps.Loader.Elf.{
  max_objects, ProgramType, ProgramHeader, Object, ElfAbi, Kernel, Views, File, Loader, ok,
  >>=-eq-ok, ok-injective,
}
use i_user_apps.Loader.Text.{cstr_equal, copy_string}
use i_user_apps.Loader.Text.Laws.{cstr_equal_iff, copy_string-eq-take}
use i_user_apps.Loader.Dynamic.{parse_dynamic}
use i_user_apps.Loader.Dynamic.Keeps.{parse_dynamic-SameImage}
use i_user_apps.Loader.Image.{
  validate_elf, register_object, map_segments, mapped_object, find_table, find_tables, load_object,
  read_whole_file, name_capacity,
}
use i_user_apps.Loader.Deps.{
  find_object, resolve_soname, dependency_path, load_file, load_dependency, load_needed,
}

-- An object that is not relocated or initialised yet.
abbrev pub Fresh : Object → Type 0
Fresh o = (o.relocated ≡ false) × (o.init_done ≡ false)

find_table-Fresh :
    (base : ℕ) (type : ProgramType) (ph : ProgramHeader) (o : Object)
    → Fresh o
    → Fresh (find_table base type ph o)
unfolding find_table
find_table-Fresh base ProgramType.load ph o h = h
find_table-Fresh base _ ph o h = h

find_tables-Fresh :
    (base : ℕ) (f : File) (n i : ℕ) (o : Object) → Fresh o → Fresh (find_tables base f n i o)
unfolding find_tables
find_tables-Fresh base f zero i o h = h
find_tables-Fresh base f (suc n) i o h =
    find_tables-Fresh base f n (i + 1) _
      (find_table-Fresh base (f.program_header i).type (f.program_header i) o h)

find_table-name :
    (base : ℕ) (type : ProgramType) (ph : ProgramHeader) (o : Object)
    → (find_table base type ph o).name ≡ o.name
unfolding find_table
find_table-name base ProgramType.load ph o = refl
find_table-name base _ ph o = refl

find_tables-name :
    (base : ℕ) (f : File) (n i : ℕ) (o : Object) → (find_tables base f n i o).name ≡ o.name
unfolding find_tables
find_tables-name base f zero i o = refl
find_tables-name base f (suc n) i o =
    find_tables-name base f n (i + 1) _
    ∙ find_table-name base (f.program_header i).type (f.program_header i) o

-- `st'` has one more object than `st`, that has this name, cut to the size of the field.
pub record Appended (name : List ℕ) (st st' : Loader) : Type 0 where
  pub object : Object
  pub objects : st'.objects ≡ st.objects ++ (object ∷ [])
  pub fresh : Fresh object
  pub named : object.name ≡ copy_string [] name_capacity (some name)
  pub room : length st.objects < max_objects

pub register_object-ok :
    (objects : List Object) (name : List ℕ) (o : Object)
    → register_object objects name ≡ ok o
    → (o.name ≡ copy_string [] name_capacity (some name)) × (length objects < max_objects) × Fresh o
unfolding register_object
register_object-ok objects name o e = ground arith

pub load_object-Appended :
    (abi : ElfAbi) (kernel : Kernel) (views : Views) (name : List ℕ) (address : ℕ) (f : File)
    (base : ℕ) (st st' : Loader)
    → load_object abi kernel views name address f base st ≡ ok st'
    → Appended name st st'
unfolding load_object mapped_object
load_object-Appended abi kernel views name address f base st st' e =
    elim (Bool-cases (validate_elf abi address f)) [
      | inr bad ↦ absurd (ground (arith, bad, e))
      | inl good ↦
          let (o, registered, rest) =
            >>=-eq-ok (register_object st.objects name) _ (rw good at e) in
          let (m, mapped, rest') = >>=-eq-ok (map_segments abi kernel _ f _ 0 _) _ rest in
          let (parsed, tables, last) =
            >>=-eq-ok (parse_dynamic abi views (mapped_object f _ o m)) _ rest' in
          let image = parse_dynamic-SameImage abi views _ parsed tables in
          let (named, room, fresh) = register_object-ok st.objects name o registered in
          record {
            object = parsed;
            fresh =
                let old = find_tables-Fresh _ f _ 0 _ fresh in
                (image.relocated ∙ old.0, image.init_done ∙ old.1);
            objects = sym (ap (λ s. s.objects) (ok-injective last));
            named = image.name ∙ find_tables-name _ f _ 0 _ ∙ named;
            room = room;
          }
    ]

-- Objects are only added, and fit in their array.
pub record Extends (st st' : Loader) : Type 0 where
  pub added : List Object
  pub objects : st'.objects ≡ st.objects ++ added
  pub fresh : All Fresh added
  pub room : length st'.objects ≤ max_objects

pub Extends-refl : (st : Loader) → length st.objects ≤ max_objects → Extends st st
Extends-refl st h = record {
  added = [];
  objects = sym (append_nil st.objects);
  fresh = tt;
  room = h;
}

pub Extends-trans : (s t u : Loader) → Extends s t → Extends t u → Extends s u
Extends-trans s t u a b = record {
  added = a.added ++ b.added;
  objects = b.objects ∙ ap (λ l. l ++ b.added) a.objects ∙ append_assoc s.objects a.added b.added;
  fresh = All-append Fresh a.added b.added a.fresh b.fresh;
  room = b.room;
}

-- The loop of `findObject` finds an object of this name.
abbrev pub IsLoaded : List ℕ → List Object → Type 0
IsLoaded name objects = (o : Object) × (find_object name objects ≡ some o)

IsLoaded-append :
    (name : List ℕ) (xs ys : List Object) → IsLoaded name xs → IsLoaded name (xs ++ ys)
unfolding find_object
IsLoaded-append name [] ys (o, e) = absurd cc
IsLoaded-append name (x ∷ xs) ys (o, e) = elim (Bool-cases (cstr_equal (some x.name) (some name))) [
  | inl same ↦ (x, rw same)
  | inr other ↦ let (o', e') = IsLoaded-append name xs ys (o, rw other at e) in (o', rw other e')
]

IsLoaded-last :
    (name : List ℕ) (xs : List Object) (o : Object) → o.name ≡ name → IsLoaded name (xs ++ (o ∷ []))
unfolding find_object
IsLoaded-last name [] o e = (o, rw ((cstr_equal_iff o.name name).1 e))
IsLoaded-last name (x ∷ xs) o e = elim (Bool-cases (cstr_equal (some x.name) (some name))) [
  | inl same ↦ (x, rw same)
  | inr other ↦ let (o', e') = IsLoaded-last name xs o e in (o', rw other e')
]

pub IsLoaded-Extends :
    (name : List ℕ) (st st' : Loader)
    → Extends st st'
    → IsLoaded name st.objects
    → IsLoaded name st'.objects
IsLoaded-Extends name st st' more loaded =
    subst (IsLoaded name) (sym more.objects) (IsLoaded-append name st.objects more.added loaded)

-- A name that fits in the field `name` of an object has its object.
abbrev pub Supplied : List Object → List ℕ → Type 0
Supplied objects needed =
    length (resolve_soname needed) < name_capacity → IsLoaded (resolve_soname needed) objects

pub Supplied-Extends :
    (st st' : Loader)
    → Extends st st'
    → (needed : List ℕ) → Supplied st.objects needed
    → Supplied st'.objects needed
Supplied-Extends st st' more needed supplied short = IsLoaded-Extends _ st st' more (supplied short)

Appended-Extends : (name : List ℕ) (st st' : Loader) → Appended name st st' → Extends st st'
Appended-Extends name st st' more = record {
  added = more.object ∷ [];
  objects = more.objects;
  fresh = (more.fresh, tt);
  room =
      omega (arith, more.room, ap length more.objects, length-append st.objects (more.object ∷ []));
}

load_file-Appended :
    (abi : ElfAbi) (kernel : Kernel) (views : Views) (name : List ℕ) (st st' : Loader)
    → load_file abi kernel views name st ≡ ok st'
    → Appended name st st'
unfolding load_file
load_file-Appended abi kernel views name st st' e =
    let ((address, f), read, rest) =
      >>=-eq-ok (read_whole_file kernel (dependency_path name)) _ e in
    load_object-Appended abi kernel views name address f st.next_base st st' rest

pub load_dependency-Extends :
    (abi : ElfAbi) (kernel : Kernel) (views : Views) (needed : List ℕ) (st st' : Loader)
    → length st.objects ≤ max_objects
    → load_dependency abi kernel views needed st ≡ ok st'
    → Extends st st' × Supplied st'.objects needed
unfolding load_dependency
load_dependency-Extends abi kernel views needed st st' room e =
    let name = resolve_soname needed in
    elim (Option-cases (find_object name st.objects)) [
      | inl absent ↦
          let more =
            load_file-Appended abi kernel views name st st' (rw (load_dependency, absent) at e) in
          (
            Appended-Extends name st st' more,
            λ short. subst (IsLoaded name) (sym more.objects) (
                IsLoaded-last name st.objects more.object (
                  more.named
                  ∙ copy_string-eq-take [] name_capacity name (omega arith)
                  ∙ take_all name (name_capacity - 1) (omega arith))),
          )
      | inr (o, present) ↦
          let same : st ≡ st' = ok-injective (rw (load_dependency, present) at e) in
          subst (λ s. Extends st s × Supplied s.objects needed) same
            (Extends-refl st room, λ short. (o, present))
    ]

pub load_needed-Extends :
    (abi : ElfAbi) (kernel : Kernel) (views : Views) (names : List (List ℕ)) (st st' : Loader)
    → length st.objects ≤ max_objects
    → load_needed abi kernel views names st ≡ ok st'
    → Extends st st' × All (Supplied st'.objects) names
unfolding load_needed
load_needed-Extends abi kernel views [] st st' room e =
    (subst (Extends st) (ok-injective e) (Extends-refl st room), tt)
load_needed-Extends abi kernel views (name ∷ names) st st' room e =
    let (mid, first, rest) = >>=-eq-ok (load_dependency abi kernel views name st) _ e in
    let (more, here) = load_dependency-Extends abi kernel views name st mid room first in
    let (later, others) = load_needed-Extends abi kernel views names mid st' more.room rest in
    (Extends-trans st mid st' more later, (Supplied-Extends mid st' later name here, others))
