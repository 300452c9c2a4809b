-- ===== src/Base/Subs.antt =====
-- Subsequences: some elements left out, the order kept.
use mathlib.Core.List.{List, [], ◌∷◌, ◌++◌}
use add_members.Base.Pred.{All}

pub data Sub {A : Type 0} : List A → List A → Type 0 where
  done : Sub [] []
  skip : {x : A} {xs ys : List A} → Sub xs ys → Sub xs (x ∷ ys)
  keep : {x : A} {xs ys : List A} → Sub xs ys → Sub (x ∷ xs) (x ∷ ys)

module _ {A : Type 0} where
  pub Sub-nil : (ys : List A) → Sub [] ys
  Sub-nil [] = done
  Sub-nil (y ∷ ys) = skip (Sub-nil ys)

  pub Sub-refl : (xs : List A) → Sub xs xs
  Sub-refl [] = done
  Sub-refl (x ∷ xs) = keep (Sub-refl xs)

  pub Sub-trans : {ys zs xs : List A} → Sub ys zs → Sub xs ys → Sub xs zs
  Sub-trans done s = s
  Sub-trans (skip t) s = skip (Sub-trans t s)
  Sub-trans (keep t) (skip s) = skip (Sub-trans t s)
  Sub-trans (keep t) (keep s) = keep (Sub-trans t s)

  pub Sub-append : {xs ys us vs : List A} → Sub xs ys → Sub us vs → Sub (xs ++ us) (ys ++ vs)
  Sub-append done t = t
  Sub-append (skip s) t = skip (Sub-append s t)
  Sub-append (keep s) t = keep (Sub-append s t)

  pub All-Sub : (P : A → Type 0) {xs ys : List A} → Sub xs ys → All P ys → All P xs
  All-Sub P done h = h
  All-Sub P (skip s) h = All-Sub P s h.1
  All-Sub P (keep s) h = (h.0, All-Sub P s h.1)
