-- ===== src/Base/Dicts.antt =====
-- A Python dictionary: an association list in the order of insertion, each key once.
use mathlib.Core.Path.{◌≡◌, refl}
use mathlib.Core.Logic.{inl, inr}
use mathlib.Core.Bool.{Bool, true, false}
use mathlib.Core.Option.{Option, none, some}
use mathlib.Core.List.{List, [], ◌∷◌, ◌++◌, map}
use native.Mathlib.Omega.{arith}
use add_members.Base.Tests.{if◌then◌else◌, Bool-cases}
use add_members.Base.Keys.{Key}

abbrev pub Dict {ℓ κ} : Type ℓ → Type κ → Type (ℓ ⊔ κ)
Dict K V = List (K × V)

module _ {ℓ κ} {K : Type ℓ} ⦃e : Key K⦄ {V : Type κ} where
  -- `d.get(k)`
  abbrev pub get : K → Dict K V → Option V
  get k [] = none
  get k ((j, v) ∷ d) = let rest = get k d in if e.same j k then some v else rest

  -- `d[k] = v`: an old key keeps its place.
  abbrev pub put : K → V → Dict K V → Dict K V
  put k v [] = (k, v) ∷ []
  put k v ((j, w) ∷ d) = let rest = put k v d in if e.same j k then (k, v) ∷ d else (j, w) ∷ rest

  -- `d.pop(k, None)`
  abbrev pub pop : K → Dict K V → Dict K V
  pop k [] = []
  pop k ((j, w) ∷ d) = let rest = pop k d in if e.same j k then rest else (j, w) ∷ rest

  pub get-put :
      (k j : K) (v : V) (d : Dict K V)
      → get j (put k v d) ≡ (if e.same k j then some v else get j d)
  get-put k j v [] = refl
  get-put k j v ((i, w) ∷ d) =
      ground (arith, e.same_iff k j, e.same_iff i k, e.same_iff i j, get-put k j v d)

  pub get-pop : (k j : K) (d : Dict K V) → get j (pop k d) ≡ (if e.same k j then none else get j d)
  get-pop k j [] = ground arith
  get-pop k j ((i, w) ∷ d) =
      ground (arith, e.same_iff k j, e.same_iff i k, e.same_iff i j, get-pop k j d)

  pub get-put_self : (k : K) (v : V) (d : Dict K V) → get k (put k v d) ≡ some v
  get-put_self k v d = ground (arith, get-put k k v d, e.same_iff k k)

  pub get-pop_self : (k : K) (d : Dict K V) → get k (pop k d) ≡ none
  get-pop_self k d = ground (arith, get-pop k k d, e.same_iff k k)

  -- No key is bound twice.
  abbrev pub IsUnique : Dict K V → Type (ℓ ⊔ κ)
  IsUnique [] = Unit
  IsUnique ((k, v) ∷ d) = (get k d ≡ none) × IsUnique d

  pub put-IsUnique : (k : K) (v : V) (d : Dict K V) → IsUnique d → IsUnique (put k v d)
  put-IsUnique k v [] h = (refl, tt)
  put-IsUnique k v ((j, w) ∷ d) h = elim (Bool-cases (e.same j k)) [
    | inl same ↦ rw same (ground (arith, e.same_iff j k, h.0), h.1)
    | inr other ↦
        rw other
          (ground (arith, get-put k j v d, e.same_iff j k, e.same_iff k j), put-IsUnique k v d h.1)
  ]

  pub pop-IsUnique : (k : K) (d : Dict K V) → IsUnique d → IsUnique (pop k d)
  pop-IsUnique k [] h = tt
  pop-IsUnique k ((j, w) ∷ d) h = elim (Bool-cases (e.same j k)) [
    | inl same ↦ rw same (pop-IsUnique k d h.1)
    | inr other ↦ rw other (ground (arith, get-pop k j d), pop-IsUnique k d h.1)
  ]

module _ {ℓ} {K : Type ℓ} ⦃e : Key K⦄ where
  -- `k in ks`
  abbrev pub contains : K → List K → Bool
  contains k [] = false
  contains k (j ∷ js) = let rest = contains k js in if e.same j k then true else rest

  -- No element stands twice.
  abbrev pub Distinct : List K → Type 0
  Distinct [] = Unit
  Distinct (k ∷ ks) = (contains k ks ≡ false) × Distinct ks

-- `for key in [k for k, v in d.items() if test(v)]: d.pop(key)`
module _ {ℓ κ} {K : Type ℓ} ⦃e : Key K⦄ {V : Type κ} where
  abbrev pub keys_where : (V → Bool) → Dict K V → List K
  keys_where test [] = []
  keys_where test ((k, v) ∷ d) = let rest = keys_where test d in if test v then k ∷ rest else rest

  abbrev pub pop_all : List K → Dict K V → Dict K V
  pop_all [] d = d
  pop_all (k ∷ ks) d = pop_all ks (pop k d)

  pub pop_all-IsUnique : (ks : List K) (d : Dict K V) → IsUnique d → IsUnique (pop_all ks d)
  pop_all-IsUnique [] d h = h
  pop_all-IsUnique (k ∷ ks) d h = pop_all-IsUnique ks (pop k d) (pop-IsUnique k d h)

  pub get-pop_all :
      (ks : List K) (j : K) (d : Dict K V)
      → get j (pop_all ks d) ≡ (if contains j ks then none else get j d)
  get-pop_all [] j d = refl
  get-pop_all (k ∷ ks) j d = ground (arith, get-pop_all ks j (pop k d), get-pop k j d)

  contains-keys_where_absent :
      (test : V → Bool) (k : K) (d : Dict K V)
      → get k d ≡ none
      → contains k (keys_where test d) ≡ false
  contains-keys_where_absent test k [] h = refl
  contains-keys_where_absent test k ((j, v) ∷ d) h =
      ground (arith, contains-keys_where_absent test k d)

  -- The purge removes exactly the entries that pass the test.
  pub get-purge :
      (test : V → Bool) (k : K) (d : Dict K V)
      → IsUnique d
      → contains k (keys_where test d) ≡ elim (get k d) [ none ↦ false | some v ↦ test v ]
  get-purge test k [] u = refl
  get-purge test k ((j, v) ∷ d) u = ground (
    arith,
    e.same_iff j k,
    get-purge test k d u.1,
    contains-keys_where_absent test j d u.0,
    contains-keys_where_absent test k d,
  )

module _ {ℓ} {K : Type ℓ} ⦃e : Key K⦄ where
  pub contains-append :
      (k : K) (xs ys : List K)
      → contains k (xs ++ ys) ≡ (if contains k xs then true else contains k ys)
  contains-append k [] ys = refl
  contains-append k (x ∷ xs) ys = ground (arith, contains-append k xs ys)

  -- A key is among the keys exactly when it is bound.
  pub contains-keys {κ} :
      {V : Type κ} (k : K) (d : Dict K V)
      → contains k (map (λ (j, _). j) d) ≡ elim (get k d) [ none ↦ false | some _ ↦ true ]
  contains-keys k [] = refl
  contains-keys k ((j, v) ∷ d) = ground (arith, contains-keys k d)
