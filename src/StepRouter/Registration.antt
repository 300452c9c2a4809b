-- ===== src/StepRouter/Registration.antt =====
-- What registration keeps.
use add_members.Base.{
  ℕ, ◌+◌, ◌≤◌, ◌≡◌, refl, inl, inr, Bool, false, ◌&&◌, Option, List, [], ◌∷◌, ◌++◌, Text, Dict, put,
  any, text_eq, arith, Bool-cases, get-put, if◌then◌else◌,
}
use add_members.StepRouter.{Bucket, is_open, bucket_of, step}

module _ {M H : Type 0} where
  -- The handlers without a guard in a bucket.
  abbrev pub open_count : Bucket M H → ℕ
  open_count [] = 0
  open_count ((guard, fn) ∷ bucket) =
      if is_open guard then open_count bucket + 1 else open_count bucket

  -- No step has two handlers without a guard.
  abbrev pub IsValid : Dict Text (Bucket M H) → Type 0
  IsValid steps = (name : Text) → open_count (bucket_of name steps) ≤ 1

  open_count-none :
      (bucket : Bucket M H) → any (λ (g, _). is_open g) bucket ≡ false → open_count bucket ≡ 0
  open_count-none [] h = refl
  open_count-none ((guard, fn) ∷ bucket) h = ground (arith, open_count-none bucket)

  open_count-append :
      (bucket : Bucket M H) (guard : Option (M → Bool)) (fn : H)
      → open_count (bucket ++ ((guard, fn) ∷ []))
        ≡ (if is_open guard then open_count bucket + 1 else open_count bucket)
  open_count-append [] guard fn = refl
  open_count-append ((g, k) ∷ bucket) guard fn = ground (arith, open_count-append bucket guard fn)

  put-IsValid :
      (name : Text) (bucket : Bucket M H) (steps : Dict Text (Bucket M H))
      → open_count bucket ≤ 1
      → IsValid steps
      → IsValid (put name bucket steps)
  put-IsValid name bucket steps h v other = ground (arith, get-put name other bucket steps, v other)

  add_open_count :
      (bucket : Bucket M H) (guard : Option (M → Bool)) (fn : H)
      → (is_open guard && any (λ (g, _). is_open g) bucket) ≡ false
      → open_count bucket ≤ 1
      → open_count (bucket ++ ((guard, fn) ∷ [])) ≤ 1
  add_open_count bucket guard fn h v =
      ground (arith, open_count-append bucket guard fn, open_count-none bucket)

  -- Whatever is registered, and whether or not it raises, no step gets two handlers without a guard.
  pub step-IsValid :
      (names : List Text) (guard : Option (M → Bool)) (fn : H) (steps : Dict Text (Bucket M H))
      → IsValid steps
      → IsValid (step names guard fn steps).0
  unfolding step
  step-IsValid [] guard fn steps v = v
  step-IsValid (name ∷ names) guard fn steps v =
      elim (Bool-cases (is_open guard && any (λ (g, _). is_open g) (bucket_of name steps))) [
        | inl e ↦ rw (e, step) (put-IsValid name (bucket_of name steps) steps (v name) v)
        | inr e ↦
            rw (e, step)
              (step-IsValid names guard fn _ (
                put-IsValid name (bucket_of name steps ++ ((guard, fn) ∷ [])) steps
                  (add_open_count (bucket_of name steps) guard fn e (v name)) v))
      ]
