-- ===== src/Loader/Main/Stored.antt =====
-- What `ld_main` of ld-instantos/src/main.cpp stores when it relocates all objects.
use i_user_apps.Common.{ℕ, ◌+◌, ◌≡◌, sym, ap, List, [], ◌∷◌, ◌++◌, All}
use i_user_apps.Loader.Elf.{Object, ElfAbi, Views, ok, >>=-eq-ok, ok-injective}
use i_user_apps.Loader.Deps.Steps.{Fresh}
use i_user_apps.Loader.Relocate.{Store, relocate_object}
use i_user_apps.Loader.Relocate.Stores.{ObjectStored, relocate_object-ObjectStored}
use i_user_apps.Loader.Main.{relocate_from}

-- The stores of each object in load order, from object `index` on.
abbrev pub AllStored : ElfAbi → Views → List Object → List Object → ℕ → List Store → Type 0
AllStored abi views all [] index stores = stores ≡ []
AllStored abi views all (o ∷ objects) index stores =
    (here : List Store) × (more : List Store) × (stores ≡ here ++ more)
    × ObjectStored abi views all index o here
    × AllStored abi views all objects (index + 1) more

pub relocate_from-AllStored :
    (abi : ElfAbi) (views : Views) (all objects objects' : List Object) (index : ℕ)
    (stores : List Store)
    → All Fresh objects
    → relocate_from abi views all objects index ≡ ok (objects', stores)
    → AllStored abi views all objects index stores
unfolding relocate_from
relocate_from-AllStored abi views all [] objects' index stores fresh e =
    sym (ap (λ p. p.1) (ok-injective e))
relocate_from-AllStored abi views all (o ∷ objects) objects' index stores fresh e =
    let ((o1, here), first, rest) = >>=-eq-ok (relocate_object abi views all index o) _ e in
    let ((later, more), others, last) =
      >>=-eq-ok (relocate_from abi views all objects (index + 1)) _ rest in
    (
      here,
      more,
      sym (ap (λ p. p.1) (ok-injective last)),
      relocate_object-ObjectStored abi views all index o o1 here fresh.0.0 first,
      relocate_from-AllStored abi views all objects later (index + 1) more fresh.1 others,
    )
