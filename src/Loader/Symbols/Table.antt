-- ===== src/Loader/Symbols/Table.antt =====
-- The symbol table of one object in the lookup of ld-instantos/src/main.cpp.
use i_user_apps.Common.{
  ℕ, zero, suc, ◌+◌, ◌-◌, ◌≤◌, ◌<◌, ◌≡◌, arith, Bool, true, false, ◌==◌, some, none, List,
  Bool-cases, inl, inr, subst, ==_iff, ◌≢◌, ◌||◌,
}
use i_user_apps.Loader.Elf.{Object, Views}
use i_user_apps.Loader.Symbols.{matches, symbol_address, find_symbol, lookup_in}

first_step :
    (P : ℕ → Bool) (i j : ℕ) → P i ≡ false → (i + 1 ≤ j → P j ≡ false) → i ≤ j → P j ≡ false
first_step P i j here later lo = elim (Bool-cases (i == j)) [
  | inl e ↦ subst (λ t. P t ≡ false) ((==_iff i j).0 e) here
  | inr n ↦ later (ground arith)
]

-- Symbol `i` of `o` is the first of those from `lo` to `hi` that matches.
abbrev pub FirstMatch : Views → List ℕ → Object → ℕ → ℕ → ℕ → Type 0
FirstMatch views name o lo hi i =
    (lo ≤ i)
    × (i < hi)
    × (matches views name o i ≡ true)
    × ((j : ℕ) → lo ≤ j → j < i → matches views name o j ≡ false)

find_symbol-some :
    (views : Views) (name : List ℕ) (o : Object) (n i v : ℕ)
    → find_symbol views name o n i ≡ some v
    → (k : ℕ) × FirstMatch views name o i (i + n) k × (v ≡ symbol_address views o k)
unfolding find_symbol
find_symbol-some views name o zero i v e = absurd cc
find_symbol-some views name o (suc n) i v e = elim (Bool-cases (matches views name o i)) [
  | inl hit ↦
      (i, (omega arith, omega arith, hit, λ j lo hi. absurd (omega (arith, lo, hi))), ground arith)
  | inr miss ↦
      let (k, (lo, hi, at, before), value) =
        find_symbol-some views name o n (i + 1) v (rw miss at e) in
      (
        k,
        (
          omega (arith, lo),
          omega (arith, hi),
          at,
          λ j lo' hi'. first_step (matches views name o) i j miss (λ l. before j l hi') lo',
        ),
        value,
      )
]

find_symbol-none :
    (views : Views) (name : List ℕ) (o : Object) (n i : ℕ)
    → find_symbol views name o n i ≡ none
    → (j : ℕ) → i ≤ j
    → j < i + n
    → matches views name o j ≡ false
unfolding find_symbol
find_symbol-none views name o zero i e j lo hi = absurd (omega (arith, lo, hi))
find_symbol-none views name o (suc n) i e j lo hi = elim (Bool-cases (matches views name o i)) [
  | inl hit ↦ absurd (ground (arith, hit, e))
  | inr miss ↦
      first_step (matches views name o) i j miss
        (λ l. find_symbol-none views name o n (i + 1) (rw miss at e) j l (omega (arith, hi))) lo
]

-- No symbol that the lookup reads in `o` matches.
abbrev pub Lacks : Views → List ℕ → Object → Type 0
Lacks views name o =
    o.symtab ≢ 0
    → o.strtab ≢ 0
    → (j : ℕ) → 1 ≤ j
    → j < o.symbol_count
    → matches views name o j ≡ false

pub lookup_in-some :
    (views : Views) (name : List ℕ) (o : Object) (v : ℕ)
    → lookup_in views name o ≡ some v
    → (i : ℕ) × FirstMatch views name o 1 o.symbol_count i × (v ≡ symbol_address views o i)
unfolding lookup_in
lookup_in-some views name o v e = elim (Bool-cases (o.symtab == 0 || o.strtab == 0)) [
  | inl missing ↦ absurd (ground (arith, missing, e))
  | inr tables ↦
      let (i, (lo, hi, at, before), value) =
        find_symbol-some views name o (o.symbol_count - 1) 1 v (rw tables at e) in
      (i, (lo, omega (arith, hi), at, before), value)
]

pub lookup_in-none :
    (views : Views) (name : List ℕ) (o : Object)
    → lookup_in views name o ≡ none
    → Lacks views name o
unfolding lookup_in
lookup_in-none views name o e symtab strtab j lo hi =
    let tables : (o.symtab == 0 || o.strtab == 0) ≡ false = ground arith in
    find_symbol-none views name o (o.symbol_count - 1) 1 (rw tables at e) j lo (omega arith)
