-- ===== src/Base/Pred.antt =====
-- Predicates on lists by recursion, which tactics read and build.
use mathlib.Core.Path.{◌≡◌}
use mathlib.Core.Logic.{◌⊎◌, inl, inr}
use mathlib.Core.Bool.{Bool, true, false}
use mathlib.Core.List.{List, [], ◌∷◌, ◌++◌}
use Prim.Native.Nat.{zero, suc, ℕ}
use add_members.Base.Lists.{drop}
use mathlib.Core.Path.{refl, ap}
use native.Mathlib.Omega.{arith}
use add_members.Base.Tests.{if◌then◌else◌, Bool-cases}

module _ {ℓ} {A : Type ℓ} where
  -- `P` holds of each element.
  abbrev pub All : (A → Type 0) → List A → Type 0
  All P [] = Unit
  All P (x ∷ xs) = P x × All P xs

  -- `P` holds of some element, and which one is known.
  abbrev pub Any : (A → Type 0) → List A → Type 0
  Any P [] = ⊥
  Any P (x ∷ xs) = P x ⊎ Any P xs

  abbrev pub any : (A → Bool) → List A → Bool
  any p [] = false
  any p (x ∷ xs) = if p x then true else any p xs

  abbrev pub all : (A → Bool) → List A → Bool
  all p [] = true
  all p (x ∷ xs) = if p x then all p xs else false

  pub all-All : (p : A → Bool) (xs : List A) → all p xs ≡ true → All (λ x. p x ≡ true) xs
  all-All p [] h = tt
  all-All p (x ∷ xs) h = elim (Bool-cases (p x)) [
    | inl e ↦ (e, all-All p xs (rw e at h))
    | inr e ↦ absurd (ground (arith, h, e))
  ]

  abbrev pub keep_if : (A → Bool) → List A → List A
  keep_if p [] = []
  keep_if p (x ∷ xs) = let rest = keep_if p xs in if p x then x ∷ rest else rest

  pub All-append : (P : A → Type 0) (xs ys : List A) → All P xs → All P ys → All P (xs ++ ys)
  All-append P [] ys h k = k
  All-append P (x ∷ xs) ys h k = (h.0, All-append P xs ys h.1 k)

  pub All-map : {P Q : A → Type 0} (xs : List A) → ((x : A) → P x → Q x) → All P xs → All Q xs
  All-map [] f h = h
  All-map (x ∷ xs) f h = (f x h.0, All-map xs f h.1)

  pub Any-append_left : (P : A → Type 0) (xs ys : List A) → Any P xs → Any P (xs ++ ys)
  Any-append_left P [] ys h = absurd h
  Any-append_left P (x ∷ xs) ys (inl h) = inl h
  Any-append_left P (x ∷ xs) ys (inr h) = inr (Any-append_left P xs ys h)

  pub Any-append_right : (P : A → Type 0) (xs ys : List A) → Any P ys → Any P (xs ++ ys)
  Any-append_right P [] ys h = h
  Any-append_right P (x ∷ xs) ys h = inr (Any-append_right P xs ys h)

  pub All-Any : {P Q : A → Type 0} (xs : List A) → All P xs → Any Q xs → (x : A) × P x × Q x
  All-Any [] h k = absurd k
  All-Any (x ∷ xs) h (inl k) = (x, h.0, k)
  All-Any (x ∷ xs) h (inr k) = All-Any xs h.1 k

  -- What `keep_if` keeps passes the test.
  pub keep_if-All : (p : A → Bool) (xs : List A) → All (λ x. p x ≡ true) (keep_if p xs)
  keep_if-All p [] = tt
  keep_if-All p (x ∷ xs) = elim (Bool-cases (p x)) [
    | inl e ↦ rw e (e, keep_if-All p xs)
    | inr e ↦ rw e (keep_if-All p xs)
  ]

  pub keep_if_same : (p : A → Bool) (xs : List A) → All (λ x. p x ≡ true) xs → keep_if p xs ≡ xs
  keep_if_same p [] h = refl
  keep_if_same p (x ∷ xs) h = rw h.0 (ap (λ l. x ∷ l) (keep_if_same p xs h.1))

  pub keep_if-All_of :
      (P : A → Type 0) (p : A → Bool) (xs : List A) → All P xs → All P (keep_if p xs)
  keep_if-All_of P p [] h = tt
  keep_if-All_of P p (x ∷ xs) h = elim (Bool-cases (p x)) [
    | inl e ↦ rw e (h.0, keep_if-All_of P p xs h.1)
    | inr e ↦ rw e (keep_if-All_of P p xs h.1)
  ]

  pub drop-All : (P : A → Type 0) (n : ℕ) (xs : List A) → All P xs → All P (drop n xs)
  drop-All P zero xs h = h
  drop-All P (suc n) [] h = tt
  drop-All P (suc n) (x ∷ xs) h = drop-All P n xs h.1

  pub All-both : (P Q : A → Type 0) (xs : List A) → All P xs → All Q xs → All (λ x. P x × Q x) xs
  All-both P Q [] h k = tt
  All-both P Q (x ∷ xs) h k = ((h.0, k.0), All-both P Q xs h.1 k.1)

-- Membership as a sum: the occurrence is kept.
abbrev pub In : {A : Type 0} → A → List A → Type 0
In a xs = Any (λ x. x ≡ a) xs
