-- ===== src/StepRouter.antt =====
-- step_router.py: which handler takes a message in a step of a conversation.
-- `M` is the type of messages and `H` that of handlers. A guard is a Boolean test of the message.
pub mod Dispatch
pub mod Registration
mod Examples
use add_members.Base.{
  ℕ, ◌+◌, Bool, true, false, ◌&&◌, Option, none, some, List, [], ◌∷◌, ◌++◌, Text, Dict, get, put,
  any, text_eq, length, if◌then◌else◌,
}

-- The handlers of one step, in the order of registration.
abbrev pub Bucket : Type 0 → Type 0 → Type 0
Bucket M H = List (Option (M → Bool) × H)

-- `guard is None`
abbrev pub is_open : {M : Type 0} → Option (M → Bool) → Bool
is_open none = true
is_open (some guard) = false

-- `guard is None or guard(message)`
abbrev pub passes : {M : Type 0} → Option (M → Bool) → M → Bool
passes none message = true
passes (some guard) message = guard message

abbrev pub bucket_of : {A : Type 0} → Text → Dict Text (List A) → List A
bucket_of name steps = elim (get name steps) [ some bucket ↦ bucket | none ↦ [] ]

module _ {M H : Type 0} where
  -- `step(*names, guard=guard)(fn)`. The second part is the name in the ValueError, if one is
  -- raised; `setdefault` has bound that name before, and the names before it stay registered.
  unfoldable pub step :
      List Text
      → Option (M → Bool)
      → H
      → Dict Text (Bucket M H)
      → Dict Text (Bucket M H) × Option Text
  step [] guard fn steps = (steps, none)
  step (name ∷ names) guard fn steps =
      let bucket : Bucket M H = bucket_of name steps in
      elim (is_open guard && any (λ (g, _). is_open g) bucket) [
        | true ↦ (put name bucket steps, some name)
        | false ↦ step names guard fn (put name (bucket ++ ((guard, fn) ∷ [])) steps)
      ]

  -- The loop of `resolve`.
  unfoldable pub first_open : M → Bucket M H → Option H
  first_open message [] = none
  first_open message ((guard, fn) ∷ bucket) =
      let rest = first_open message bucket in if passes guard message then some fn else rest

  -- `resolve(step, message)`: no step, or an empty name, has no handler.
  unfoldable pub resolve : Option Text → M → Dict Text (Bucket M H) → Option H
  unfolding first_open
  resolve none message steps = none
  resolve (some []) message steps = none
  resolve (some (c ∷ cs)) message steps = first_open message (bucket_of (c ∷ cs) steps)

-- `__len__`
unfoldable pub size : {M H : Type 0} → Dict Text (Bucket M H) → ℕ
size [] = 0
size ((name, bucket) ∷ steps) = length bucket + size steps
