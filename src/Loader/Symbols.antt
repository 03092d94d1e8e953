-- ===== src/Loader/Symbols.antt =====
-- `lookupSymbolExcluding` and `lookupSymbol` of ld-instantos/src/main.cpp. An object is known by its
-- index, as the source compares pointers into `objects`.
pub mod Table
pub mod First
use i_user_apps.Common.{
  ℕ, zero, suc, ◌+◌, ◌-◌, Bool, true, false, not, ◌&&◌, ◌||◌, ◌==◌, if◌then◌else◌, Option, some,
  none, List, [], ◌∷◌, add64,
}
use i_user_apps.Loader.Elf.{Symbol, Object, Views}
use i_user_apps.Loader.Text.{cstr_equal}

-- A symbol that is defined, has a name, and has this one.
unfoldable pub matches : Views → List ℕ → Object → ℕ → Bool
matches views name o i =
    let sym = views.symbol_at o.symtab i in
    not (sym.section_index == 0 || sym.name == 0)
    && cstr_equal (some name) (some (views.text_at (add64 o.strtab sym.name)))

unfoldable pub symbol_address : Views → Object → ℕ → ℕ
symbol_address views o i = add64 o.base (views.symbol_at o.symtab i).value

-- The inner loop, with `n` symbols to go from `i`.
unfoldable pub find_symbol : Views → List ℕ → Object → ℕ → ℕ → Option ℕ
find_symbol views name o zero i = none
find_symbol views name o (suc n) i =
    let rest = find_symbol views name o n (i + 1) in
    if matches views name o i then some (symbol_address views o i) else rest

unfoldable pub lookup_in : Views → List ℕ → Object → Option ℕ
lookup_in views name o =
    if o.symtab == 0 || o.strtab == 0 then none else find_symbol views name o (o.symbol_count - 1) 1

abbrev pub is_excluded : Option ℕ → ℕ → Bool
is_excluded none index = false
is_excluded (some k) index = index == k

abbrev or_else : Option ℕ → Option ℕ → Option ℕ
or_else none rest = rest
or_else (some v) rest = some v

-- The outer loop, from object `index` on.
unfoldable pub lookup_from : Views → List ℕ → Option ℕ → List Object → ℕ → Option ℕ
lookup_from views name exclude [] index = none
lookup_from views name exclude (o ∷ objects) index =
    let rest = lookup_from views name exclude objects (index + 1) in
    if is_excluded exclude index then rest else or_else (lookup_in views name o) rest

unfoldable pub lookup_symbol_excluding : Views → List Object → List ℕ → Option ℕ → Option ℕ
lookup_symbol_excluding views objects name exclude = lookup_from views name exclude objects 0

unfoldable pub lookup_symbol : Views → List Object → List ℕ → Option ℕ
lookup_symbol views objects name = lookup_symbol_excluding views objects name none
