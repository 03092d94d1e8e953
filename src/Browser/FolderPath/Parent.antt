-- ===== src/Browser/FolderPath/Parent.antt =====
-- The parent of a child of a folder is the folder, in file-browser/src/main.cpp.
use i_user_apps.Common.{length-reverse}
use i_user_apps.Common.{
  ℕ, suc, ◌+◌, ◌-◌, ◌<◌, ◌≡◌, refl, sym, ap, ◌∙◌, subst, ◌≢◌, inl, inr, true, false, List, [], ◌∷◌,
  ◌++◌, arith, Bool-cases, length, length-append, All, All-append, append_assoc, take_all, reverse,
}
use mathlib.Core.List.{reverse-reverse, reverse-append, reverse-cons}
use i_user_apps.Common.CString.{copy_from-eq-take}
use i_user_apps.Browser.Text.{append_text, copy_string}
use i_user_apps.Browser.FolderPath.{
  slash, path_is_root, build_child_path, strip_slashes, strip_name, drop_slash, or_root,
  build_parent_path,
}

-- A component of a path.
abbrev pub NoSlash : List ℕ → Type 0
NoSlash name = All (λ c. c ≢ slash) name

pub append_text-fits :
    (buffer text : List ℕ) (capacity : ℕ)
    → length buffer + length text < capacity
    → append_text buffer capacity text ≡ buffer ++ text
unfolding append_text
append_text-fits buffer text capacity h =
    ap (◌++◌ buffer)
      (copy_from-eq-take text (length buffer) capacity ∙ take_all text _ (omega (arith, h)))

pub copy_string-fits :
    (capacity : ℕ) (text : List ℕ) → length text < capacity → copy_string capacity text ≡ text
unfolding copy_string
copy_string-fits capacity text h = take_all text (capacity - 1) (omega (arith, h))

strip_name-append :
    (name rest : List ℕ) → NoSlash name → strip_name (name ++ (slash ∷ rest)) ≡ slash ∷ rest
unfolding strip_name
strip_name-append [] [] h = refl
strip_name-append [] (d ∷ rest) h = refl
strip_name-append (c ∷ []) rest h = ground (arith, h.0, strip_name-append [] rest tt)
strip_name-append (c ∷ (d ∷ name)) rest h =
    ground (arith, h.0, strip_name-append (d ∷ name) rest h.1)

strip_slashes-append :
    (name rest : List ℕ)
    → NoSlash name
    → 0 < length name
    → strip_slashes (name ++ (slash ∷ rest)) ≡ name ++ (slash ∷ rest)
unfolding strip_slashes
strip_slashes-append [] rest h pos = absurd (omega (arith, pos))
strip_slashes-append (c ∷ []) rest h pos = ground (arith, h.0)
strip_slashes-append (c ∷ (d ∷ name)) rest h pos = ground (arith, h.0)

NoSlash-reverse : (name : List ℕ) → NoSlash name → NoSlash (reverse name)
NoSlash-reverse [] h = tt
NoSlash-reverse (c ∷ name) h =
    subst NoSlash (sym (reverse-cons c name))
      (All-append (λ d. d ≢ slash) (reverse name) (c ∷ []) (NoSlash-reverse name h.1) (h.0, tt))

-- The path of a child: the folder, but the root, and a slash and the name behind it.
reverse_child :
    (front name : List ℕ)
    → reverse (front ++ (slash ∷ name)) ≡ reverse name ++ (slash ∷ reverse front)
reverse_child front name =
    reverse-append front (slash ∷ name)
    ∙ ap (λ t. t ++ reverse front) (reverse-cons slash name)
    ∙ append_assoc (reverse name) (slash ∷ []) (reverse front)

strip_child :
    (front name : List ℕ)
    → NoSlash name
    → 0 < length name
    → strip_name (strip_slashes (reverse (front ++ (slash ∷ name)))) ≡ slash ∷ reverse front
strip_child front name h pos =
    let back = NoSlash-reverse name h in
    ap (λ t. strip_name (strip_slashes t)) (reverse_child front name)
    ∙ ap strip_name (
        strip_slashes-append (reverse name) (reverse front) back
          (omega (arith, pos, length-reverse name)))
    ∙ strip_name-append (reverse name) (reverse front) back

parent_of_child :
    (front name : List ℕ) (capacity : ℕ)
    → NoSlash name
    → 0 < length name
    → length front + length name + 1 < capacity
    → build_parent_path (front ++ (slash ∷ name)) capacity
      ≡ or_root capacity (reverse (drop_slash (slash ∷ reverse front)))
unfolding build_parent_path
parent_of_child front name capacity h pos fits =
    ap (λ t. or_root capacity (reverse (drop_slash (strip_name (strip_slashes (reverse t))))))
      (copy_string-fits capacity (front ++ (slash ∷ name))
        (omega (arith, fits, length-append front (slash ∷ name))))
    ∙ ap (λ t. or_root capacity (reverse (drop_slash t))) (strip_child front name h pos)

drop_slash-reverse :
    (c : ℕ) (front : List ℕ) → drop_slash (slash ∷ reverse (c ∷ front)) ≡ reverse (c ∷ front)
drop_slash-reverse c front = go (reverse (c ∷ front)) (length-reverse (c ∷ front))
  where
    unfold_lem : (d : ℕ) (rest : List ℕ) → drop_slash (slash ∷ (d ∷ rest)) ≡ d ∷ rest
    unfold_lem d rest = unfold drop_slash in refl

    go : (l : List ℕ) → length l ≡ suc (length front) → drop_slash (slash ∷ l) ≡ l
    go [] e = absurd (omega (arith, e))
    go (d ∷ rest) e = unfold_lem d rest

build_child_path-eq :
    (base name : List ℕ) (capacity : ℕ)
    → path_is_root base ≡ false
    → length base + length name + 1 < capacity
    → build_child_path base name capacity ≡ base ++ (slash ∷ name)
unfolding build_child_path
build_child_path-eq base name capacity h fits =
    let start = append_text-fits [] base capacity (omega (arith, fits)) in
    let mid = append_text-fits base (slash ∷ []) capacity (omega (arith, fits)) in
    let all =
      append_text-fits (base ++ (slash ∷ [])) name capacity
        (omega (arith, fits, length-append base (slash ∷ []))) in
    rw (h, start, mid, all) (append_assoc base (slash ∷ []) name)

build_child_path-root :
    (name : List ℕ) (capacity : ℕ)
    → length name + 1 < capacity
    → build_child_path (slash ∷ []) name capacity ≡ slash ∷ name
unfolding build_child_path path_is_root
build_child_path-root name capacity fits =
    let start = append_text-fits [] (slash ∷ []) capacity (omega (arith, fits)) in
    let all = append_text-fits (slash ∷ []) name capacity (omega (arith, fits)) in rw (start, all)

path_is_root-eq : (path : List ℕ) → path_is_root path ≡ true → path ≡ slash ∷ []
unfolding path_is_root
path_is_root-eq [] e = absurd cc
path_is_root-eq (c ∷ []) e = ground (arith, e)
path_is_root-eq (c ∷ (d ∷ path)) e = absurd cc

root_parent :
    (capacity : ℕ) → or_root capacity (reverse (drop_slash (slash ∷ reverse []))) ≡ slash ∷ []
unfolding drop_slash
root_parent capacity = refl

-- For a folder with a path that is not empty and a name of at least one byte and without a slash,
-- as long as both and a slash fit in the array, the parent of the child's path is the folder.
pub build_parent_path-child :
    (base name : List ℕ) (capacity : ℕ)
    → 0 < length base
    → NoSlash name
    → 0 < length name
    → length base + length name + 1 < capacity
    → build_parent_path (build_child_path base name capacity) capacity ≡ base
build_parent_path-child [] name capacity full h pos fits = absurd (omega (arith, full))
build_parent_path-child (c ∷ base) name capacity full h pos fits =
    elim (Bool-cases (path_is_root (c ∷ base))) [
      | inl root ↦
          let is_slash = path_is_root-eq (c ∷ base) root in
          ap (λ t. build_parent_path (build_child_path t name capacity) capacity) is_slash
          ∙ ap (λ t. build_parent_path t capacity)
              (build_child_path-root name capacity (omega (arith, fits)))
          ∙ parent_of_child [] name capacity h pos (omega (arith, fits))
          ∙ root_parent capacity
          ∙ sym is_slash
      | inr inner ↦
          ap (λ t. build_parent_path t capacity)
            (build_child_path-eq (c ∷ base) name capacity inner fits)
          ∙ parent_of_child (c ∷ base) name capacity h pos (omega (arith, fits))
          ∙ ap (λ t. or_root capacity (reverse t)) (drop_slash-reverse c base)
          ∙ ap (or_root capacity) (reverse-reverse (c ∷ base))
    ]
