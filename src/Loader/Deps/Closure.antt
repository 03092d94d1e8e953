-- ===== src/Loader/Deps/Closure.antt =====
-- The dependency loop of `ld_main` in ld-instantos/src/main.cpp ends, with every dependency loaded.
use i_user_apps.Common.{
  ℕ, zero, suc, ◌+◌, ◌≤◌, ◌<◌, ◌≡◌, sym, ap, ◌∙◌, subst, inl, inr, some, List, arith, ◌==◌, ==_iff,
  Bool-cases, Option-cases, length, get_elem?, length-append, All, All-map, get_elem?-append,
  get_elem?-some, get_elem?-none,
}
use i_user_apps.Loader.Elf.{
  max_objects, Object, ElfAbi, Kernel, Views, Loader, Result, ok, fatal, ok-injective, Result-cases,
}
use i_user_apps.Loader.Deps.{load_needed, load_all}
use i_user_apps.Loader.Deps.Steps.{
  Extends, Extends-refl, Extends-trans, Supplied, Supplied-Extends, load_needed-Extends,
}

-- The dependencies of the first `i` objects are supplied.
abbrev pub SuppliedTo : ℕ → List Object → Type 0
SuppliedTo i objects =
    (k : ℕ) (o : Object) → k < i → get_elem? objects k ≡ some o → All (Supplied objects) o.needed

SuppliedTo-Extends :
    (i : ℕ) (st st' : Loader)
    → i ≤ length st.objects
    → Extends st st'
    → SuppliedTo i st.objects
    → SuppliedTo i st'.objects
SuppliedTo-Extends i st st' h more old k o hk at =
    let same : get_elem? st.objects k ≡ some o =
      sym (get_elem?-append st.objects more.added k (omega (arith, hk, h)))
      ∙ sym (ap (λ l. get_elem? l k) more.objects)
      ∙ at in
    All-map (Supplied st.objects) (Supplied st'.objects) o.needed (Supplied-Extends st st' more)
      (old k o hk same)

SuppliedTo-suc :
    (i : ℕ) (st st' : Loader) (o : Object)
    → get_elem? st.objects i ≡ some o
    → Extends st st'
    → All (Supplied st'.objects) o.needed
    → SuppliedTo i st.objects
    → SuppliedTo (i + 1) st'.objects
SuppliedTo-suc i st st' o at more new old k o' hk at' =
    let inside = get_elem?-some st.objects i o at in
    elim (Bool-cases (k == i)) [
      | inl e ↦
          let here : get_elem? st'.objects i ≡ some o =
            ap (λ l. get_elem? l i) more.objects
            ∙ get_elem?-append st.objects more.added i inside
            ∙ at in
          let at-i : get_elem? st'.objects i ≡ some o' =
            subst (λ t. get_elem? st'.objects t ≡ some o') ((==_iff k i).0 e) at' in
          let same : o ≡ o' = cc in subst (λ t. All (Supplied st'.objects) t.needed) same new
      | inr n ↦
          SuppliedTo-Extends i st st' (omega (arith, inside)) more old k o' (ground (arith, hk)) at'
    ]

-- What the loop gives: a fatal error, or objects that supply the dependencies of all of them.
abbrev pub Closes : Loader → Result Loader → Type 0
Closes st r =
    (st' : Loader) → r ≡ ok st' → Extends st st' × SuppliedTo (length st'.objects) st'.objects

load_all-Closes :
    (abi : ElfAbi) (kernel : Kernel) (views : Views) (n i : ℕ) (st : Loader)
    → length st.objects ≤ max_objects
    → i ≤ length st.objects
    → max_objects < n + i
    → SuppliedTo i st.objects
    → (r : Result Loader) × (load_all abi kernel views n i st ≡ some r) × Closes st r
unfolding load_all
load_all-Closes abi kernel views zero i st room hi fuel old = absurd (omega (arith, room, hi, fuel))
load_all-Closes abi kernel views (suc n) i st room hi fuel old =
    elim (Option-cases (get_elem? st.objects i)) [
      | inl end ↦
          let all : length st.objects ≤ i = get_elem?-none st.objects i end in
          (
            ok st,
            rw (load_all, end),
            λ st' e.
                subst (λ s. Extends st s × SuppliedTo (length s.objects) s.objects) (ok-injective e)
                  (Extends-refl st room, λ k o hk at. old k o (omega (arith, hk, all)) at),
          )
      | inr (o, at) ↦ elim (Result-cases (load_needed abi kernel views o.needed st)) [
        | inl (mid, done) ↦
            let inside = get_elem?-some st.objects i o at in
            let (more, new) = load_needed-Extends abi kernel views o.needed st mid room done in
            let longer : length st.objects ≤ length mid.objects =
              omega (arith, ap length more.objects, length-append st.objects more.added) in
            let (r, runs, closes) =
              load_all-Closes abi kernel views n (i + 1) mid more.room
                (omega (arith, inside, longer)) (omega (arith, fuel))
                (SuppliedTo-suc i st mid o at more new old) in
            (
              r,
              rw (load_all, at, done) runs,
              λ st' e.
                  let (later, supplied) = closes st' e in
                  (Extends-trans st mid st' more later, supplied),
            )
        | inr (why, failed) ↦ (fatal why, rw (load_all, at, failed), λ st' e. absurd cc)
      ]
    ]

abbrev pub load_fuel : ℕ
load_fuel = max_objects + 1

-- From at most 16 objects, the dependency loop ends: with a fatal error, or with at most 16
-- objects, the ones before among them in their order, such that `findObject` finds an object for
-- every dependency of each of them whose name, aliases resolved, has less than 64 bytes.
pub load_all-closed :
    (abi : ElfAbi) (kernel : Kernel) (views : Views) (st : Loader)
    → length st.objects ≤ max_objects
    → (r : Result Loader) × (load_all abi kernel views load_fuel 0 st ≡ some r) × Closes st r
load_all-closed abi kernel views st room =
    load_all-Closes abi kernel views load_fuel 0 st room (omega arith) (omega arith)
      (λ k o hk at. absurd (omega (arith, hk)))
