-- ===== src/Loader/Symbols/First.antt =====
-- The symbol lookup of ld-instantos/src/main.cpp gives the first definition in load order.
use i_user_apps.Common.{
  ℕ, zero, suc, ◌+◌, ◌<◌, ◌≡◌, refl, arith, false, Option, some, none, List, [], ◌∷◌, get_elem?,
  Bool-cases, Option-cases, inl, inr, subst,
}
use i_user_apps.Loader.Elf.{Object, Views}
use i_user_apps.Loader.Symbols.{
  symbol_address, lookup_in, is_excluded, lookup_from, lookup_symbol_excluding,
}
use i_user_apps.Loader.Symbols.Table.{FirstMatch, Lacks, lookup_in-some, lookup_in-none}

-- Object `k` gives the symbol, and no object before it has it, those at `index` on being counted.
pub record FirstObject (views : Views) (name : List ℕ) (exclude : Option ℕ) (objects : List Object)
    (index v : ℕ) : Type 0 where
  pub k : ℕ
  pub object : Object
  pub symbol : ℕ
  pub loaded : get_elem? objects k ≡ some object
  pub included : is_excluded exclude (index + k) ≡ false
  pub first : FirstMatch views name object 1 object.symbol_count symbol
  pub value : v ≡ symbol_address views object symbol
  pub before :
      (j : ℕ) (o : Object)
      → j < k
      → get_elem? objects j ≡ some o
      → is_excluded exclude (index + j) ≡ false
      → Lacks views name o

-- The object at `index` does not count: it is left out, or it lacks the symbol.
abbrev Skipped : Views → List ℕ → Option ℕ → Object → ℕ → Type 0
Skipped views name exclude o index = is_excluded exclude index ≡ false → Lacks views name o

skip_before :
    (views : Views) (name : List ℕ) (exclude : Option ℕ) (o : Object) (objects : List Object)
    (index k : ℕ)
    → Skipped views name exclude o index
    → ((j : ℕ) (o : Object)
        → j < k
        → get_elem? objects j ≡ some o
        → is_excluded exclude (index + 1 + j) ≡ false
        → Lacks views name o)
    → (j : ℕ) (o' : Object) → j < suc k
    → get_elem? (o ∷ objects) j ≡ some o'
    → is_excluded exclude (index + j) ≡ false
    → Lacks views name o'
skip_before views name exclude o objects index k skipped before zero o' h at out =
    let same : o ≡ o' = cc in
    subst (Lacks views name) same
      (skipped (subst (λ t. is_excluded exclude t ≡ false) (omega arith) out))
skip_before views name exclude o objects index k skipped before (suc j) o' h at out =
    let moved : index + suc j ≡ index + 1 + j = omega arith in
    before j o' (omega arith) at (subst (λ t. is_excluded exclude t ≡ false) moved out)

skip_object :
    (views : Views) (name : List ℕ) (exclude : Option ℕ) (o : Object) (objects : List Object)
    (index v : ℕ)
    → Skipped views name exclude o index
    → FirstObject views name exclude objects (index + 1) v
    → FirstObject views name exclude (o ∷ objects) index v
skip_object views name exclude o objects index v skipped found =
    let moved : index + 1 + found.k ≡ index + suc found.k = omega arith in
    record {
      k = suc found.k;
      object = found.object;
      symbol = found.symbol;
      loaded = found.loaded;
      included = subst (λ t. is_excluded exclude t ≡ false) moved found.included;
      first = found.first;
      value = found.value;
      before = skip_before views name exclude o objects index found.k skipped found.before;
    }

take_object :
    (views : Views) (name : List ℕ) (exclude : Option ℕ) (o : Object) (objects : List Object)
    (index v : ℕ)
    → is_excluded exclude index ≡ false
    → lookup_in views name o ≡ some v
    → FirstObject views name exclude (o ∷ objects) index v
take_object views name exclude o objects index v included hit =
    let (symbol, first, value) = lookup_in-some views name o v hit in
    record {
      k = 0;
      object = o;
      symbol = symbol;
      loaded = refl;
      included = subst (λ t. is_excluded exclude t ≡ false) (omega arith) included;
      first = first;
      value = value;
      before = λ j o' h at out. absurd (omega (arith, h));
    }

lookup_from-some :
    (views : Views) (name : List ℕ) (exclude : Option ℕ) (objects : List Object) (index v : ℕ)
    → lookup_from views name exclude objects index ≡ some v
    → FirstObject views name exclude objects index v
unfolding lookup_from
lookup_from-some views name exclude [] index v e = absurd cc
lookup_from-some views name exclude (o ∷ objects) index v e =
    elim (Bool-cases (is_excluded exclude index)) [
      | inl out ↦
          skip_object views name exclude o objects index v (λ included. absurd (ground arith))
            (lookup_from-some views name exclude objects (index + 1) v (rw out at e))
      | inr included ↦ elim (Option-cases (lookup_in views name o)) [
        | inl none_here ↦
            skip_object views name exclude o objects index v
              (λ t. lookup_in-none views name o none_here)
              (lookup_from-some views name exclude objects (index + 1) v
                (rw (included, none_here) at e))
        | inr (w, hit) ↦
            take_object views name exclude o objects index v included
              (ground (arith, e, included, hit))
      ]
    ]

lookup_from-none :
    (views : Views) (name : List ℕ) (exclude : Option ℕ) (objects : List Object) (index : ℕ)
    → lookup_from views name exclude objects index ≡ none
    → (k : ℕ) (o : Object) → get_elem? objects k ≡ some o
    → is_excluded exclude (index + k) ≡ false
    → Lacks views name o
unfolding lookup_from
lookup_from-none views name exclude [] index e k o at included = absurd cc
lookup_from-none views name exclude (o ∷ objects) index e zero o' at included =
    let same : o ≡ o' = cc in
    let here : is_excluded exclude index ≡ false =
      subst (λ t. is_excluded exclude t ≡ false) (omega arith) included in
    subst (Lacks views name) same (lookup_in-none views name o (ground (arith, e, here)))
lookup_from-none views name exclude (o ∷ objects) index e (suc k) o' at included =
    let moved : index + suc k ≡ index + 1 + k = omega arith in
    let rest : lookup_from views name exclude objects (index + 1) ≡ none = ground (arith, e) in
    lookup_from-none views name exclude objects (index + 1) rest k o' at
      (subst (λ t. is_excluded exclude t ≡ false) moved included)

-- A lookup that finds a value finds it in the first object, in load order and the excluded one
-- left out, that has a matching symbol, at the first such symbol; its value is relocated.
pub lookup_symbol_excluding-first :
    (views : Views) (objects : List Object) (name : List ℕ) (exclude : Option ℕ) (v : ℕ)
    → lookup_symbol_excluding views objects name exclude ≡ some v
    → FirstObject views name exclude objects 0 v
unfolding lookup_symbol_excluding
lookup_symbol_excluding-first views objects name exclude v e =
    lookup_from-some views name exclude objects 0 v e

-- A lookup that finds nothing leaves no object, but the excluded one, with a matching symbol.
pub lookup_symbol_excluding-none :
    (views : Views) (objects : List Object) (name : List ℕ) (exclude : Option ℕ)
    → lookup_symbol_excluding views objects name exclude ≡ none
    → (k : ℕ) (o : Object) → get_elem? objects k ≡ some o
    → is_excluded exclude k ≡ false
    → Lacks views name o
unfolding lookup_symbol_excluding
lookup_symbol_excluding-none views objects name exclude e k o at included =
    lookup_from-none views name exclude objects 0 e k o at
      (subst (λ t. is_excluded exclude t ≡ false) (omega arith) included)

-- What the result of a lookup says of the objects.
pub Answered : Views → List ℕ → Option ℕ → List Object → Option ℕ → Type 0
Answered views name exclude objects none =
    (k : ℕ) (o : Object)
    → get_elem? objects k ≡ some o
    → is_excluded exclude k ≡ false
    → Lacks views name o
Answered views name exclude objects (some v) = FirstObject views name exclude objects 0 v

-- A lookup finds a value exactly in the first object, in load order and the excluded one left out,
-- that has a matching symbol, at the first such symbol, with its value relocated; a lookup that finds
-- nothing leaves no object, but the excluded one, with a matching symbol.
pub lookup_symbol_excluding-Answered :
    (views : Views) (objects : List Object) (name : List ℕ) (exclude : Option ℕ)
    → Answered views name exclude objects (lookup_symbol_excluding views objects name exclude)
unfolding Answered
lookup_symbol_excluding-Answered views objects name exclude =
    elim (Option-cases (lookup_symbol_excluding views objects name exclude)) [
      | inl nothing ↦ rw nothing (lookup_symbol_excluding-none views objects name exclude nothing)
      | inr (v, found) ↦ rw found (lookup_symbol_excluding-first views objects name exclude v found)
    ]
