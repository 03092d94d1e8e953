-- ===== src/Loader/Main/Total.antt =====
-- `ld_main` of ld-instantos/src/main.cpp from its start to the entry point of the program.
use i_user_apps.Common.{
  ◌≤◌, ◌≡◌, refl, sym, ap, ◌∙◌, subst, inl, inr, ◌||◌, some, List, [], ◌∷◌, arith, ◌==◌, Bool-cases,
  length, All, All-append,
}
use i_user_apps.Loader.Elf.{
  Object, AuxEntry, ElfAbi, Views, Kernel, Loader, Result, ok, fatal, ◌>>=◌, >>=-eq-ok,
  ok-injective, Result-cases, max_objects, ProgramType, Fatal,
}
use i_user_apps.Loader.Dynamic.{parse_dynamic}
use i_user_apps.Loader.Dynamic.Keeps.{parse_dynamic-SameImage}
use i_user_apps.Loader.Image.{register_object, or_fatal}
use i_user_apps.Loader.Deps.Steps.{Fresh, Extends, register_object-ok}
use i_user_apps.Loader.Deps.Closure.{SuppliedTo, Closes, load_fuel, load_all-closed}
use i_user_apps.Loader.Main.{
  scan_aux, find_header, register_main, finish, first_loader, ld_main, Run,
}
use i_user_apps.Loader.Main.Order.{Finished, finish-Finished}

-- One object, that is not relocated or initialised yet.
record MainOnly (st : Loader) : Type 0 where
  object : Object
  objects : st.objects ≡ object ∷ []
  fresh : Fresh object

register_main-MainOnly :
    (abi : ElfAbi) (views : Views) (entries : List AuxEntry) (st : Loader)
    → register_main abi views entries first_loader ≡ ok st
    → MainOnly st
unfolding register_main or_fatal
register_main-MainOnly abi views entries st e =
    let s = scan_aux entries (record { phdr = 0; phnum = 0; entry = 0 }) in
    elim (Bool-cases (s.phdr == 0 || s.phnum == 0 || s.entry == 0)) [
      | inl missing ↦ absurd (ground (arith, missing, e))
      | inr given ↦
          let (first, found, rest) =
            >>=-eq-ok
              (or_fatal (find_header views s.phdr ProgramType.program_headers s.phnum 0)
                Fatal.missing_base)
              _ (rw given at e) in
          let (o, registered, rest') = >>=-eq-ok (register_object [] _) _ rest in
          let (parsed, tables, last) = >>=-eq-ok (parse_dynamic abi views _) _ rest' in
          let image = parse_dynamic-SameImage abi views _ parsed tables in
          let (named, room, fresh) = register_object-ok [] _ o registered in
          record {
            object = parsed;
            objects = sym (ap (λ t. t.objects) (ok-injective last));
            fresh = (image.relocated ∙ fresh.0, image.init_done ∙ fresh.1);
          }
    ]

-- A run of the loader that ends well: of the objects that were loaded, each has its dependencies
-- among them, and all were relocated, protected and initialised as `Finished` says.
pub record Complete (abi : ElfAbi) (views : Views) (run : Run) : Type 0 where
  pub loaded : Loader
  pub room : length loaded.objects ≤ max_objects
  pub supplied : SuppliedTo (length loaded.objects) loaded.objects
  pub finished : Finished abi views loaded run

abbrev pub EndsWell : ElfAbi → Views → Result Run → Type 0
EndsWell abi views r = (run : Run) → r ≡ ok run → Complete abi views run

loaded-Fresh : (st st' : Loader) → MainOnly st → Extends st st' → All Fresh st'.objects
loaded-Fresh st st' main more = subst (All Fresh) (sym more.objects) (
    All-append Fresh st.objects more.added (subst (All Fresh) (sym main.objects) (main.fresh, tt))
      more.fresh)

closed-EndsWell :
    (abi : ElfAbi) (kernel : Kernel) (views : Views) (st : Loader) (r : Result Loader)
    → MainOnly st
    → Closes st r
    → EndsWell abi views (r >>= finish abi kernel views)
closed-EndsWell abi kernel views st r main closes run e =
    let (st', loaded, finished) = >>=-eq-ok r _ e in
    let (more, supplied) = closes st' loaded in
    record {
      loaded = st';
      room = more.room;
      supplied = supplied;
      finished = finish-Finished abi kernel views st' run (loaded-Fresh st st' main more) finished;
    }

-- The loader ends, with a fatal error or with a run in which at most 16 objects are loaded,
-- `findObject` finds an object for each dependency of each of them whose name, aliases resolved,
-- has less than 64 bytes; for each relocation of each object, in load order and those of its data
-- first, what it asks for is stored: the base or the value of the first definition of its symbol (0
-- if there is none and it is weak) plus the addend, or a copy of the bytes of the first definition in
-- another object; all objects are marked as relocated and initialised, the segments of all libraries
-- are protected, the initialisers of the libraries are called in load order and then those of the
-- main object, and the entry point is the main object's.
pub ld_main_complete :
    (abi : ElfAbi) (kernel : Kernel) (views : Views) (entries : List AuxEntry)
    → (r : Result Run) × (ld_main abi kernel views load_fuel entries ≡ some r)
      × EndsWell abi views r
unfolding ld_main
ld_main_complete abi kernel views entries =
    elim (Result-cases (register_main abi views entries first_loader)) [
      | inl (st, registered) ↦
          let main = register_main-MainOnly abi views entries st registered in
          let few : length st.objects ≤ max_objects = omega (arith, ap length main.objects) in
          let (r, runs, closes) = load_all-closed abi kernel views st few in
          (
            r >>= finish abi kernel views,
            rw (ld_main, registered, runs) refl,
            closed-EndsWell abi kernel views st r main closes,
          )
      | inr (why, failed) ↦ (fatal why, rw (ld_main, failed), λ run e. absurd cc)
    ]
