-- ===== src/Loader/Relocate/Stores.antt =====
-- What the relocations of ld-instantos/src/main.cpp store, all of a table and both tables of an object.
use i_user_apps.Common.{
  ℕ, zero, suc, ◌+◌, ◌≡◌, refl, sym, ap, subst, ◌⊎◌, inl, inr, true, false, ◌||◌, Option, none,
  some, List, ◌∷◌, ◌++◌, arith, leb, ◌==◌, Bool-cases, length, get_elem?, add64, some_injective,
}
use i_user_apps.Loader.Elf.{
  Object, Relocation, RelocationType, ElfAbi, Views, ok, >>=-eq-ok, ok-injective,
}
use i_user_apps.Loader.Symbols.{lookup_symbol_excluding}
use i_user_apps.Loader.Symbols.First.{FirstObject, lookup_symbol_excluding-first}
use i_user_apps.Loader.Relocate.{
  Store, copy_source, copy_store, relocation_store, apply_relocation, apply_table, relocate_tables,
  relocate_object,
}
use i_user_apps.Loader.Relocate.Value.{
  relocation_symbol, relocation_name, WeakMissing, is_symbolic, apply_relocation-value,
}

abbrev place : Object → Relocation → ℕ
place o r = add64 o.base r.offset

-- What a relocation of object `index` asks to store: nothing; the base, or the value of its symbol,
-- with the addend; or for a copy the bytes of the first definition in another object.
pub data Asks (abi : ElfAbi) (views : Views) (objects : List Object) (index : ℕ) (o : Object)
    (r : Relocation) : Store → Type 0 where
  nothing : r.type ≡ RelocationType.no_relocation → Asks abi views objects index o r Store.no_store
  base_relative :
      r.type ≡ RelocationType.relative
      → Asks abi views objects index o r (Store.store_word (place o r) (add64 o.base r.addend))
  symbol_value :
      (value : ℕ)
      → is_symbolic r.type ≡ true
      → FirstObject views (relocation_name views o r) none objects 0 value
        ⊎ WeakMissing abi views objects o r value
      → Asks abi views objects index o r (Store.store_word (place o r) (add64 value r.addend))
  copied :
      (source : ℕ)
      → r.type ≡ RelocationType.copy
      → FirstObject views (relocation_name views o r) (some index) objects 0 source
      → Asks abi views objects index o r
          (Store.store_bytes (place o r) source (relocation_symbol views o r).size)

copy_source-some : (found : Option ℕ) (v : ℕ) → copy_source found ≡ ok v → found ≡ some v
unfolding copy_source
copy_source-some none v e = absurd cc
copy_source-some (some w) v e = ap some (ok-injective e)

copy_store-Asks :
    (abi : ElfAbi) (views : Views) (objects : List Object) (index : ℕ) (o : Object) (r : Relocation)
    (store : Store)
    → r.type ≡ RelocationType.copy
    → copy_store views objects index o r ≡ ok store
    → Asks abi views objects index o r store
unfolding copy_store
copy_store-Asks abi views objects index o r store is_copy e =
    elim (Bool-cases (o.symtab == 0 || leb o.symbol_count r.symbol)) [
      | inl bad ↦ absurd (ground (arith, bad, e))
      | inr good ↦
          let name = relocation_name views o r in
          let found = lookup_symbol_excluding views objects name (some index) in
          let (source, given, last) = >>=-eq-ok (copy_source found) _ (rw good at e) in
          let hit = copy_source-some found source given in
          subst (Asks abi views objects index o r) (ok-injective last) (
            copied source is_copy
              (lookup_symbol_excluding-first views objects name (some index) source hit))
    ]

symbolic-Asks :
    (abi : ElfAbi) (views : Views) (objects : List Object) (index : ℕ) (o : Object) (r : Relocation)
    (store : Store)
    → is_symbolic r.type ≡ true
    → apply_relocation abi views objects index o r ≡ ok store
    → Asks abi views objects index o r store
symbolic-Asks abi views objects index o r store is given =
    let (value, stored, from) = apply_relocation-value abi views objects index o r store is given in
    subst (Asks abi views objects index o r) (sym stored) (symbol_value value is from)

relocation_store-Asks :
    (abi : ElfAbi) (views : Views) (objects : List Object) (index : ℕ) (o : Object) (r : Relocation)
    (store : Store) (type : RelocationType)
    → r.type ≡ type
    → apply_relocation abi views objects index o r ≡ ok store
    → relocation_store abi views objects index o type r ≡ ok store
    → Asks abi views objects index o r store
unfolding relocation_store
relocation_store-Asks abi views objects index o r store RelocationType.no_relocation is given e =
    subst (Asks abi views objects index o r) (ok-injective e) (nothing is)
relocation_store-Asks abi views objects index o r store RelocationType.relative is given e =
    subst (Asks abi views objects index o r) (ok-injective e) (base_relative is)
relocation_store-Asks abi views objects index o r store RelocationType.copy is given e =
    copy_store-Asks abi views objects index o r store is e
relocation_store-Asks abi views objects index o r store RelocationType.other_relocation is given e =
    absurd cc
relocation_store-Asks abi views objects index o r store RelocationType.absolute64 is given e =
    symbolic-Asks abi views objects index o r store (ap is_symbolic is) given
relocation_store-Asks abi views objects index o r store RelocationType.glob_dat is given e =
    symbolic-Asks abi views objects index o r store (ap is_symbolic is) given
relocation_store-Asks abi views objects index o r store RelocationType.jump_slot is given e =
    symbolic-Asks abi views objects index o r store (ap is_symbolic is) given

apply_relocation-Asks :
    (abi : ElfAbi) (views : Views) (objects : List Object) (index : ℕ) (o : Object) (r : Relocation)
    (store : Store)
    → apply_relocation abi views objects index o r ≡ ok store
    → Asks abi views objects index o r store
unfolding apply_relocation
apply_relocation-Asks abi views objects index o r store e =
    relocation_store-Asks abi views objects index o r store r.type refl e e

-- The stores are those of a table's entries from `first` on, one for each and in their order.
pub record TableStored (abi : ElfAbi) (views : Views) (objects : List Object) (index : ℕ)
    (o : Object) (table first count : ℕ) (stores : List Store) : Type 0 where
  pub size : length stores ≡ count
  pub asked :
      (i : ℕ) (store : Store)
      → get_elem? stores i ≡ some store
      → Asks abi views objects index o (views.relocation_at table (first + i)) store

cons-TableStored :
    (abi : ElfAbi) (views : Views) (objects : List Object) (index : ℕ) (o : Object)
    (table count first : ℕ) (store : Store) (later : List Store)
    → Asks abi views objects index o (views.relocation_at table first) store
    → TableStored abi views objects index o table (first + 1) count later
    → TableStored abi views objects index o table first (suc count) (store ∷ later)
cons-TableStored abi views objects index o table count first store later head tail = record {
  size = ap suc tail.size;
  asked = asked;
}
  where
    here : ℕ → Store → Type 0
    here k s = Asks abi views objects index o (views.relocation_at table k) s

    asked :
        (i : ℕ) (s : Store)
        → get_elem? (store ∷ later) i ≡ some s
        → Asks abi views objects index o (views.relocation_at table (first + i)) s
    asked zero s at =
        subst (Asks abi views objects index o (views.relocation_at table (first + 0)))
          (some_injective store s at) (subst (λ k. here k store) (omega arith) head)
    asked (suc i) s at = subst (λ k. here k s) (omega arith) (tail.asked i s at)

apply_table-TableStored :
    (abi : ElfAbi) (views : Views) (objects : List Object) (index : ℕ) (o : Object)
    (table count first : ℕ) (stores : List Store)
    → apply_table abi views objects index o table count first ≡ ok stores
    → TableStored abi views objects index o table first count stores
unfolding apply_table
apply_table-TableStored abi views objects index o table zero first stores e = record {
  size = ap length (sym (ok-injective e));
  asked = λ i store at. absurd (cc (ok-injective e));
}
apply_table-TableStored abi views objects index o table (suc count) first stores e =
    let (store, head, rest) =
      >>=-eq-ok (apply_relocation abi views objects index o (views.relocation_at table first)) _
        e in
    let (later, tail, last) =
      >>=-eq-ok (apply_table abi views objects index o table count (first + 1)) _ rest in
    subst (TableStored abi views objects index o table first (suc count)) (ok-injective last) (
      cons-TableStored abi views objects index o table count first store later
        (apply_relocation-Asks abi views objects index o _ store head)
        (apply_table-TableStored abi views objects index o table count (first + 1) later tail))

-- Both tables of an object, the relocations of its data first.
pub record ObjectStored (abi : ElfAbi) (views : Views) (objects : List Object) (index : ℕ)
    (o : Object) (stores : List Store) : Type 0 where
  pub relas : List Store
  pub jumps : List Store
  pub both : stores ≡ relas ++ jumps
  pub rela_stored : TableStored abi views objects index o o.rela 0 o.rela_count relas
  pub jump_stored : TableStored abi views objects index o o.jmprel 0 o.jmprel_count jumps

relocate_tables-ObjectStored :
    (abi : ElfAbi) (views : Views) (objects : List Object) (index : ℕ) (o o' : Object)
    (stores : List Store)
    → relocate_tables abi views objects index o ≡ ok (o', stores)
    → ObjectStored abi views objects index o stores
unfolding relocate_tables
relocate_tables-ObjectStored abi views objects index o o' stores e =
    let (relas, r, rest) =
      >>=-eq-ok (apply_table abi views objects index o o.rela o.rela_count 0) _ e in
    let (jumps, j, last) =
      >>=-eq-ok (apply_table abi views objects index o o.jmprel o.jmprel_count 0) _ rest in
    record {
      relas = relas;
      jumps = jumps;
      both = sym (ap (λ p. p.1) (ok-injective last));
      rela_stored = apply_table-TableStored abi views objects index o o.rela o.rela_count 0 relas r;
      jump_stored =
          apply_table-TableStored abi views objects index o o.jmprel o.jmprel_count 0 jumps j;
    }

pub relocate_object-ObjectStored :
    (abi : ElfAbi) (views : Views) (objects : List Object) (index : ℕ) (o o' : Object)
    (stores : List Store)
    → o.relocated ≡ false
    → relocate_object abi views objects index o ≡ ok (o', stores)
    → ObjectStored abi views objects index o stores
unfolding relocate_object
relocate_object-ObjectStored abi views objects index o o' stores fresh e =
    let opened : relocate_tables abi views objects index o ≡ ok (o', stores) =
      ground (arith, e, fresh) in
    relocate_tables-ObjectStored abi views objects index o o' stores opened
