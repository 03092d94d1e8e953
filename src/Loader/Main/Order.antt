-- ===== src/Loader/Main/Order.antt =====
-- What `ld_main` of ld-instantos/src/main.cpp does once all objects are loaded, and in what order.
use i_user_apps.Common.{
  ℕ, zero, suc, ◌+◌, ◌≡◌, refl, sym, ap, ◌∙◌, subst, inl, inr, true, false, List, [], ◌∷◌, ◌++◌,
  map, arith, ◌==◌, if◌then◌else◌, Bool-cases, All,
}
use i_user_apps.Loader.Elf.{
  Object, Segment, ElfAbi, Views, Kernel, Loader, ok, >>=-eq-ok, ok-injective,
}
use i_user_apps.Loader.Relocate.{
  Store, relocate_tables, relocate_object, apply_table, init_calls, run_init,
}
use i_user_apps.Loader.Deps.Steps.{Fresh}
use i_user_apps.Loader.Main.Stored.{AllStored, relocate_from-AllStored}
use i_user_apps.Loader.Main.{
  relocate_from, protect_segments, protect_all, init_all, initialise, libraries_of, entry_of, Run,
  finish,
}

abbrev pub drop_zeros : List ℕ → List ℕ
drop_zeros [] = []
drop_zeros (x ∷ xs) = let rest = drop_zeros xs in if x == 0 then rest else x ∷ rest

abbrev words_from : Views → ℕ → ℕ → ℕ → List ℕ
words_from views table zero i = []
words_from views table (suc n) i = views.word64_at table i ∷ words_from views table n (i + 1)

-- The initialisers of an object: its `init`, then those of its array, null pointers left out.
abbrev pub initialisers : Views → Object → List ℕ
initialisers views o = drop_zeros (o.init ∷ words_from views o.init_array o.init_array_count 0)

abbrev pub all_initialisers : Views → List Object → List ℕ
all_initialisers views [] = []
all_initialisers views (o ∷ objects) = initialisers views o ++ all_initialisers views objects

-- The libraries' in load order, and the main object's last.
abbrev pub calls_in_order : Views → List Object → List ℕ
calls_in_order views [] = []
calls_in_order views (main ∷ libraries) =
    all_initialisers views libraries ++ initialisers views main

abbrev pub all_segments : List Object → List Segment
all_segments [] = []
all_segments (o ∷ objects) = o.segments ++ all_segments objects

abbrev pub relocated_object : Object → Object
relocated_object o = record o { relocated = true }

abbrev pub ready : Object → Object
ready o = record o { relocated = true; init_done = true }

init_calls-eq :
    (views : Views) (o : Object) (n i : ℕ)
    → init_calls views o n i ≡ drop_zeros (words_from views o.init_array n i)
unfolding init_calls
init_calls-eq views o zero i = refl
init_calls-eq views o (suc n) i = ground (arith, init_calls-eq views o n (i + 1))

run_init-eq :
    (views : Views) (o : Object)
    → o.init_done ≡ false
    → run_init views (relocated_object o) ≡ (ready o, initialisers views o)
unfolding run_init
run_init-eq views o fresh =
    ground (arith, init_calls-eq views (relocated_object o) o.init_array_count 0)

init_all-eq :
    (views : Views) (objects : List Object)
    → All Fresh objects
    → init_all views (map relocated_object objects)
      ≡ (map ready objects, all_initialisers views objects)
unfolding init_all
init_all-eq views [] fresh = refl
init_all-eq views (o ∷ objects) fresh =
    rw (run_init-eq views o fresh.0.1, init_all-eq views objects fresh.1)

initialise-eq :
    (views : Views) (objects : List Object)
    → All Fresh objects
    → initialise views (map relocated_object objects)
      ≡ (map ready objects, calls_in_order views objects)
unfolding initialise
initialise-eq views [] fresh = refl
initialise-eq views (o ∷ objects) fresh =
    rw (run_init-eq views o fresh.0.1, init_all-eq views objects fresh.1)

relocate_tables-eq :
    (abi : ElfAbi) (views : Views) (all : List Object) (index : ℕ) (o o' : Object)
    (stores : List Store)
    → relocate_tables abi views all index o ≡ ok (o', stores)
    → o' ≡ relocated_object o
unfolding relocate_tables
relocate_tables-eq abi views all index o o' stores e =
    let (relas, r, rest) =
      >>=-eq-ok (apply_table abi views all index o o.rela o.rela_count 0) _ e in
    let (jumps, j, last) =
      >>=-eq-ok (apply_table abi views all index o o.jmprel o.jmprel_count 0) _ rest in
    sym (ap (λ p. p.0) (ok-injective last))

relocate_object-eq :
    (abi : ElfAbi) (views : Views) (all : List Object) (index : ℕ) (o o' : Object)
    (stores : List Store)
    → Fresh o
    → relocate_object abi views all index o ≡ ok (o', stores)
    → o' ≡ relocated_object o
unfolding relocate_object
relocate_object-eq abi views all index o o' stores fresh e =
    let opened : relocate_tables abi views all index o ≡ ok (o', stores) =
      ground (arith, e, fresh.0) in
    relocate_tables-eq abi views all index o o' stores opened

relocate_from-eq :
    (abi : ElfAbi) (views : Views) (all objects objects' : List Object) (index : ℕ)
    (stores : List Store)
    → All Fresh objects
    → relocate_from abi views all objects index ≡ ok (objects', stores)
    → objects' ≡ map relocated_object objects
unfolding relocate_from
relocate_from-eq abi views all [] objects' index stores fresh e =
    sym (ap (λ p. p.0) (ok-injective e))
relocate_from-eq abi views all (o ∷ objects) objects' index stores fresh e =
    let ((o1, here), first, rest) = >>=-eq-ok (relocate_object abi views all index o) _ e in
    let ((later, more), others, last) =
      >>=-eq-ok (relocate_from abi views all objects (index + 1)) _ rest in
    let head = relocate_object-eq abi views all index o o1 here fresh.0 first in
    let tail = relocate_from-eq abi views all objects later (index + 1) more fresh.1 others in
    sym (ap (λ p. p.0) (ok-injective last))
    ∙ ap (λ t. t ∷ later) head
    ∙ ap (◌∷◌ (relocated_object o)) tail

protect_segments-eq :
    (kernel : Kernel) (segments done : List Segment)
    → protect_segments kernel segments ≡ ok done
    → done ≡ segments
unfolding protect_segments
protect_segments-eq kernel [] done e = sym (ok-injective e)
protect_segments-eq kernel (s ∷ segments) done e =
    elim (Bool-cases (kernel.mprotect s.address s.size s.protection)) [
      | inl granted ↦
          let (rest, r, last) = >>=-eq-ok (protect_segments kernel segments) _ (rw granted at e) in
          sym (ok-injective last) ∙ ap (◌∷◌ s) (protect_segments-eq kernel segments rest r)
      | inr refused ↦ absurd (ground (arith, e, refused))
    ]

protect_all-eq :
    (kernel : Kernel) (objects : List Object) (done : List Segment)
    → protect_all kernel (map relocated_object objects) ≡ ok done
    → done ≡ all_segments objects
unfolding protect_all
protect_all-eq kernel [] done e = sym (ok-injective e)
protect_all-eq kernel (o ∷ objects) done e =
    let (here, h, rest) = >>=-eq-ok (protect_segments kernel o.segments) _ e in
    let (others, r, last) = >>=-eq-ok (protect_all kernel (map relocated_object objects)) _ rest in
    let head = protect_segments-eq kernel o.segments here h in
    sym (ok-injective last)
    ∙ ap (λ t. t ++ others) head
    ∙ ap (λ t. o.segments ++ t) (protect_all-eq kernel objects others r)

-- A run that ends well did this for objects that were fresh: for each relocation of each object, in
-- load order, it stored what the relocation asks for; all are marked as relocated and initialised,
-- the segments of all but the first are protected, and the initialisers are called in order.
pub record Finished (abi : ElfAbi) (views : Views) (st : Loader) (run : Run) : Type 0 where
  pub stored : AllStored abi views st.objects st.objects 0 run.stores
  pub objects : run.objects ≡ map ready st.objects
  pub protected : run.protected ≡ all_segments (libraries_of st.objects)
  pub calls : run.calls ≡ calls_in_order views st.objects
  pub entry : run.entry ≡ entry_of st.objects
  pub copies : run.copies ≡ st.copies

libraries_of-map :
    (objects : List Object)
    → libraries_of (map relocated_object objects) ≡ map relocated_object (libraries_of objects)
libraries_of-map [] = refl
libraries_of-map (o ∷ objects) = refl

entry_of-map : (objects : List Object) → entry_of (map relocated_object objects) ≡ entry_of objects
entry_of-map [] = refl
entry_of-map (o ∷ objects) = refl

pub finish-Finished :
    (abi : ElfAbi) (kernel : Kernel) (views : Views) (st : Loader) (run : Run)
    → All Fresh st.objects
    → finish abi kernel views st ≡ ok run
    → Finished abi views st run
unfolding finish
finish-Finished abi kernel views st run fresh e =
    let ((objects, stores), relocated, rest) =
      >>=-eq-ok (relocate_from abi views st.objects st.objects 0) _ e in
    let (protected, guarded, last) = >>=-eq-ok (protect_all kernel (libraries_of objects)) _ rest in
    let after = ok-injective last in
    let same = relocate_from-eq abi views st.objects st.objects objects 0 stores fresh relocated in
    let guarded' =
      subst (λ t. protect_all kernel t ≡ ok protected)
        (ap libraries_of same ∙ libraries_of-map st.objects) guarded in
    let done = ap (initialise views) same ∙ initialise-eq views st.objects fresh in
    record {
      stored = subst (AllStored abi views st.objects st.objects 0) (ap (λ r. r.stores) after) (
          relocate_from-AllStored abi views st.objects st.objects objects 0 stores fresh relocated);
      objects = sym (ap (λ r. r.objects) after) ∙ ap (λ p. p.0) done;
      protected =
          sym (ap (λ r. r.protected) after)
          ∙ protect_all-eq kernel (libraries_of st.objects) protected guarded';
      calls = sym (ap (λ r. r.calls) after) ∙ ap (λ p. p.1) done;
      entry = sym (ap (λ r. r.entry) after) ∙ ap entry_of same ∙ entry_of-map st.objects;
      copies = sym (ap (λ r. r.copies) after);
    }
