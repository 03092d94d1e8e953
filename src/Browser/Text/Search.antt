-- ===== src/Browser/Text/Search.antt =====
-- What `contains_folded` of file-browser/src/main.cpp finds.
use i_user_apps.Common.{
  ℕ, ◌≡◌, refl, sym, ap, subst, ◌↔◌, inl, inr, true, List, [], ◌∷◌, ◌++◌, arith, Bool-cases,
}
use i_user_apps.Browser.Text.{ascii_lower, starts_folded, find_folded, contains_folded}

-- The two texts are the same but for the case of their letters.
abbrev pub SameFolded : List ℕ → List ℕ → Type 0
SameFolded [] [] = Unit {0}
SameFolded [] (y ∷ b) = ⊥
SameFolded (x ∷ a) [] = ⊥
SameFolded (x ∷ a) (y ∷ b) = (ascii_lower x ≡ ascii_lower y) × SameFolded a b

-- Some part of the name is the needle, ignoring case.
abbrev pub Contains : List ℕ → List ℕ → Type 0
Contains name needle =
    (before part after : List ℕ) × (name ≡ before ++ (part ++ after)) × SameFolded part needle

starts_folded-some :
    (name needle : List ℕ)
    → starts_folded name needle ≡ true
    → (part after : List ℕ) × (name ≡ part ++ after) × SameFolded part needle
unfolding starts_folded
starts_folded-some name [] e = ([], name, refl, tt)
starts_folded-some [] (n ∷ needle) e = absurd cc
starts_folded-some (c ∷ name) (n ∷ needle) e =
    let same : ascii_lower c ≡ ascii_lower n = ground (arith, e) in
    let rest : starts_folded name needle ≡ true = ground (arith, e) in
    let (part, after, split, folded) = starts_folded-some name needle rest in
    (c ∷ part, after, ap (◌∷◌ c) split, (same, folded))

starts_folded-part :
    (part after needle : List ℕ)
    → SameFolded part needle
    → starts_folded (part ++ after) needle ≡ true
unfolding starts_folded
starts_folded-part [] after [] h = refl
starts_folded-part [] after (n ∷ needle) h = absurd h
starts_folded-part (c ∷ part) after [] h = absurd h
starts_folded-part (c ∷ part) after (n ∷ needle) h =
    ground (arith, h.0, starts_folded-part part after needle h.1)

find_folded-some : (name needle : List ℕ) → find_folded name needle ≡ true → Contains name needle
unfolding find_folded
find_folded-some [] needle e = absurd cc
find_folded-some (c ∷ name) needle e = elim (Bool-cases (starts_folded (c ∷ name) needle)) [
  | inl here ↦
      let (part, after, split, folded) = starts_folded-some (c ∷ name) needle here in
      ([], part, after, split, folded)
  | inr later ↦
      let (before, part, after, split, folded) = find_folded-some name needle (rw later at e) in
      (c ∷ before, part, after, ap (◌∷◌ c) split, folded)
]

find_folded-Contains :
    (before part after : List ℕ) (n : ℕ) (needle : List ℕ)
    → SameFolded part (n ∷ needle)
    → find_folded (before ++ (part ++ after)) (n ∷ needle) ≡ true
unfolding find_folded
find_folded-Contains [] [] after n needle h = absurd h
find_folded-Contains [] (c ∷ part) after n needle h =
    let found = starts_folded-part (c ∷ part) after (n ∷ needle) h in ground (arith, found)
find_folded-Contains (c ∷ before) part after n needle h =
    ground (arith, find_folded-Contains before part after n needle h)

-- The search finds a needle exactly if some part of the name is the needle, ignoring the case of
-- ASCII letters; the empty needle is in every name.
pub contains_folded_iff :
    (name needle : List ℕ) → (contains_folded name needle ≡ true) ↔ Contains name needle
unfolding contains_folded
contains_folded_iff name [] = (λ e. ([], [], name, refl, tt), λ h. refl)
contains_folded_iff name (n ∷ needle) = (
  find_folded-some name (n ∷ needle),
  λ h.
      let (before, part, after, split, folded) = h in
      subst (λ t. find_folded t (n ∷ needle) ≡ true) (sym split)
        (find_folded-Contains before part after n needle folded),
)
