-- ===== src/StepRouter/Examples.antt =====
-- Tests and instances of the theorems. A message is the pair of flags "has a document", "has a
-- text", and handlers are numbers.
use add_members.Base.{
  ℕ, ◌≡◌, refl, Bool, true, false, none, some, List, [], ◌∷◌, Text, codes, Dict, arith,
}
use add_members.StepRouter.{Bucket, step, resolve, size}
use add_members.StepRouter.Registration
use add_members.StepRouter.Dispatch

abbrev has_document : Bool × Bool → Bool
has_document m = m.0

abbrev upload : Text
upload = codes "upload_session"

abbrev steps : Dict Text (Bucket (Bool × Bool) ℕ)
steps = (upload, (some has_document, 1) ∷ []) ∷ (codes "phone", (none, 2) ∷ []) ∷ []

second_open : (step (codes "phone" ∷ []) none 3 steps).1 ≡ some (codes "phone")
unfolding step
second_open = refl

size-steps : size steps ≡ 2
unfolding size
size-steps = refl

steps-IsValid : Registration.IsValid steps
steps-IsValid name = ground arith

abbrev calls : List (Dispatch.Registered (Bool × Bool) ℕ)
calls =
    (upload ∷ codes "phone" ∷ [], some has_document, 1)
    ∷ (codes "phone" ∷ [], none, 2)
    ∷ (upload ∷ [], none, 3)
    ∷ []

calls-Accepted : Dispatch.Accepted calls []
unfolding step
calls-Accepted = (refl, (refl, (refl, tt)))

resolve-First_example :
    Dispatch.First upload
      (true, false)
      calls
      (resolve (some upload) (true, false) (Dispatch.register calls []))
resolve-First_example =
    Dispatch.resolve-First 117 (codes "pload_session") (true, false) calls calls-Accepted
