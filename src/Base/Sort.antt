-- ===== src/Base/Sort.antt =====
-- Python's stable sort, as insertion by a Boolean order `le`.
use mathlib.Core.Path.{◌≡◌}
use mathlib.Core.Logic.{◌⊎◌, inl, inr}
use mathlib.Core.Bool.{Bool, true, false}
use mathlib.Core.List.{List, [], ◌∷◌, Perm}
use mathlib.Core.List.Perm
use add_members.Base.Tests.{if◌then◌else◌, Bool-cases}
use add_members.Base.Pred.{All, Any, All-map}

module _ {ℓ} {A : Type ℓ} (le : A → A → Bool) where
  -- `x` goes before the first element that it is not behind.
  abbrev pub insert_by : A → List A → List A
  insert_by x [] = x ∷ []
  insert_by x (y ∷ ys) = let rest = insert_by x ys in if le x y then x ∷ y ∷ ys else y ∷ rest

  abbrev pub sort_by : List A → List A
  sort_by [] = []
  sort_by (x ∷ xs) = insert_by x (sort_by xs)

  -- Each element is in order with all that follow it.
  abbrev pub IsSorted : List A → Type 0
  IsSorted [] = Unit
  IsSorted (x ∷ xs) = All (λ y. le x y ≡ true) xs × IsSorted xs

  pub insert_by-perm : (x : A) (ys : List A) → Perm (insert_by x ys) (x ∷ ys)
  insert_by-perm x [] = Perm.refl _
  insert_by-perm x (y ∷ ys) = elim (Bool-cases (le x y)) [
    | inl e ↦ rw e (Perm.refl _)
    | inr e ↦ rw e (Perm.trans (Perm.cons y (insert_by-perm x ys)) (Perm.swap x y ys))
  ]

  pub sort_by-perm : (xs : List A) → Perm (sort_by xs) xs
  sort_by-perm [] = Perm.refl _
  sort_by-perm (x ∷ xs) = Perm.trans (insert_by-perm x (sort_by xs)) (Perm.cons x (sort_by-perm xs))

  pub insert_by-All :
      (P : A → Type 0) (x : A) (ys : List A) → P x → All P ys → All P (insert_by x ys)
  insert_by-All P x [] h k = (h, tt)
  insert_by-All P x (y ∷ ys) h k = elim (Bool-cases (le x y)) [
    | inl e ↦ rw e (h, k)
    | inr e ↦ rw e (k.0, insert_by-All P x ys h k.1)
  ]

  module _ (total : (x y : A) → le x y ≡ false → le y x ≡ true)
      (trans : (x y z : A) → le x y ≡ true → le y z ≡ true → le x z ≡ true) where
    pub insert_by-IsSorted : (x : A) (ys : List A) → IsSorted ys → IsSorted (insert_by x ys)
    insert_by-IsSorted x [] h = (tt, tt)
    insert_by-IsSorted x (y ∷ ys) h = elim (Bool-cases (le x y)) [
      | inl e ↦ rw e ((e, All-map ys (λ z k. trans x y z e k) h.0), h)
      | inr e ↦
          rw e
            (insert_by-All (λ z. le y z ≡ true) x ys (total x y e) h.0, insert_by-IsSorted x ys h.1)
    ]

    pub sort_by-IsSorted : (xs : List A) → IsSorted (sort_by xs)
    sort_by-IsSorted [] = tt
    sort_by-IsSorted (x ∷ xs) = insert_by-IsSorted x (sort_by xs) (sort_by-IsSorted xs)

  pub All-insert_by :
      (P : A → Type 0) (x : A) (ys : List A) → All P (insert_by x ys) → P x × All P ys
  All-insert_by P x [] h = h
  All-insert_by P x (y ∷ ys) h = elim (Bool-cases (le x y)) [
    | inl e ↦ rw e at h
    | inr e ↦
        let h' : P y × All P (insert_by x ys) = rw e at h in
        let (first, rest) = All-insert_by P x ys h'.1 in (first, (h'.0, rest))
  ]

  -- A statement about all sorted elements is one about all elements.
  pub All-sort_by : (P : A → Type 0) (xs : List A) → All P (sort_by xs) → All P xs
  All-sort_by P [] h = h
  All-sort_by P (x ∷ xs) h =
      let (first, rest) = All-insert_by P x (sort_by xs) h in (first, All-sort_by P xs rest)

  pub sort_by-All : (P : A → Type 0) (xs : List A) → All P xs → All P (sort_by xs)
  sort_by-All P [] h = h
  sort_by-All P (x ∷ xs) h = insert_by-All P x (sort_by xs) h.0 (sort_by-All P xs h.1)

  pub Any-insert_by :
      (P : A → Type 0) (x : A) (ys : List A) → Any P (insert_by x ys) → P x ⊎ Any P ys
  Any-insert_by P x [] h = h
  Any-insert_by P x (y ∷ ys) h = elim (Bool-cases (le x y)) [
    | inl e ↦ rw e at h
    | inr e ↦
        let h' : P y ⊎ Any P (insert_by x ys) = rw e at h in
        elim h' [
          | inl k ↦ inr (inl k)
          | inr k ↦ elim (Any-insert_by P x ys k) [ inl k ↦ inl k | inr k ↦ inr (inr k) ]
        ]
  ]

  pub Any-sort_by : (P : A → Type 0) (xs : List A) → Any P (sort_by xs) → Any P xs
  Any-sort_by P [] h = h
  Any-sort_by P (x ∷ xs) h = elim (Any-insert_by P x (sort_by xs) h) [
    | inl k ↦ inl k
    | inr k ↦ inr (Any-sort_by P xs k)
  ]
