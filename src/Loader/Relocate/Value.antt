-- ===== src/Loader/Relocate/Value.antt =====
-- The value that `applyRelocation` of ld-instantos/src/main.cpp stores for a symbol.
use i_user_apps.Common.{
  ℕ, ◌≡◌, refl, sym, ap, ◌∙◌, ◌⊎◌, inl, inr, Bool, true, false, ◌||◌, Option, none, some, List,
  arith, leb, ◌==◌, Bool-cases, get_elem?, add64,
}
use i_user_apps.Loader.Elf.{
  Symbol, Object, Relocation, RelocationType, ElfAbi, Views, ok, >>=-eq-ok, ok-injective,
}
use i_user_apps.Loader.Symbols.{lookup_symbol, lookup_symbol_excluding}
use i_user_apps.Loader.Symbols.Table.{Lacks}
use i_user_apps.Loader.Symbols.First.{
  FirstObject, lookup_symbol_excluding-first, lookup_symbol_excluding-none,
}
use i_user_apps.Loader.Relocate.{
  Store, symbol_value, symbol_store, relocation_store, apply_relocation, weak_binding,
}

abbrev pub relocation_symbol : Views → Object → Relocation → Symbol
relocation_symbol views o r = views.symbol_at o.symtab r.symbol

abbrev pub relocation_name : Views → Object → Relocation → List ℕ
relocation_name views o r = views.text_at (add64 o.strtab (relocation_symbol views o r).name)

-- No object has the symbol, and it is weak.
abbrev pub WeakMissing : ElfAbi → Views → List Object → Object → Relocation → ℕ → Type 0
WeakMissing abi views objects o r value =
    (value ≡ 0)
    × (abi.symbol_binding (relocation_symbol views o r).info ≡ weak_binding)
    × ((k : ℕ) (other : Object)
        → get_elem? objects k ≡ some other
        → Lacks views (relocation_name views o r) other)

symbol_value-cases :
    (abi : ElfAbi) (sym : Symbol) (found : Option ℕ) (value : ℕ)
    → symbol_value abi sym found ≡ ok value
    → (found ≡ some value)
      ⊎ ((found ≡ none) × (value ≡ 0) × (abi.symbol_binding sym.info ≡ weak_binding))
unfolding symbol_value
symbol_value-cases abi sym none value e = inr ((refl, ground (arith, e), ground (arith, e)))
symbol_value-cases abi sym (some v) value e = inl (ap some (ok-injective e))

abbrev pub is_symbolic : RelocationType → Bool
is_symbolic RelocationType.absolute64 = true
is_symbolic RelocationType.glob_dat = true
is_symbolic RelocationType.jump_slot = true
is_symbolic _ = false

relocation_store-symbolic :
    (abi : ElfAbi) (views : Views) (objects : List Object) (index : ℕ) (o : Object)
    (type : RelocationType) (r : Relocation)
    → is_symbolic type ≡ true
    → relocation_store abi views objects index o type r ≡ symbol_store abi views objects o r
unfolding relocation_store
relocation_store-symbolic abi views objects index o RelocationType.absolute64 r h = refl
relocation_store-symbolic abi views objects index o RelocationType.glob_dat r h = refl
relocation_store-symbolic abi views objects index o RelocationType.jump_slot r h = refl
relocation_store-symbolic abi views objects index o _ r h = absurd cc

symbol_store-value :
    (abi : ElfAbi) (views : Views) (objects : List Object) (o : Object) (r : Relocation)
    (store : Store)
    → symbol_store abi views objects o r ≡ ok store
    → (value : ℕ) × (store ≡ Store.store_word (add64 o.base r.offset) (add64 value r.addend))
      × (FirstObject views (relocation_name views o r) none objects 0 value
          ⊎ WeakMissing abi views objects o r value)
unfolding symbol_store lookup_symbol
symbol_store-value abi views objects o r store e =
    elim (Bool-cases (o.symtab == 0 || leb o.symbol_count r.symbol)) [
      | inl bad ↦ absurd (ground (arith, bad, e))
      | inr good ↦
          let name = relocation_name views o r in
          let found = lookup_symbol_excluding views objects name none in
          let (value, given, last) =
            >>=-eq-ok (symbol_value abi (relocation_symbol views o r) found) _ (rw good at e) in
          (
            value,
            sym (ok-injective last),
            elim (symbol_value-cases abi (relocation_symbol views o r) found value given) [
              | inl hit ↦ inl (lookup_symbol_excluding-first views objects name none value hit)
              | inr (miss, is_zero, weak) ↦ inr (
                is_zero,
                weak,
                λ k other at.
                    lookup_symbol_excluding-none views objects name none miss k other at refl,
              )
            ],
          )
    ]

-- A relocation for a symbol that succeeds stores, at its place, the addend added to the value of
-- the first definition in load order, or to 0 if no object defines the symbol and it is weak.
pub apply_relocation-value :
    (abi : ElfAbi) (views : Views) (objects : List Object) (index : ℕ) (o : Object) (r : Relocation)
    (store : Store)
    → is_symbolic r.type ≡ true
    → apply_relocation abi views objects index o r ≡ ok store
    → (value : ℕ) × (store ≡ Store.store_word (add64 o.base r.offset) (add64 value r.addend))
      × (FirstObject views (relocation_name views o r) none objects 0 value
          ⊎ WeakMissing abi views objects o r value)
unfolding apply_relocation
apply_relocation-value abi views objects index o r store h e =
    symbol_store-value abi views objects o r store
      (sym (relocation_store-symbolic abi views objects index o r.type r h) ∙ e)
