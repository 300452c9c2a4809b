-- ===== src/StepRouter/Dispatch.antt =====
-- Which handler `resolve` chooses, and what a later registration can change.
use add_members.Base.{
  ℕ, ◌≡◌, refl, inl, inr, Bool, true, false, ◌&&◌, Option, none, some, List, [], ◌∷◌, ◌++◌, Text,
  Dict, get, put, any, text_eq, text_beq_iff, contains, subst, sym, ◌∙◌, arith, Bool-cases, All,
  get-put, get-put_self, if◌then◌else◌,
}
use add_members.StepRouter.{Bucket, is_open, bucket_of, step, passes, first_open, resolve}

-- One call of the decorator: the names, the guard and the function.
abbrev pub Registered : Type 0 → Type 0 → Type 0
Registered M H = List Text × Option (M → Bool) × H

abbrev first_of : {H : Type 0} → Option H → Option H → Option H
first_of found other = elim found [ some h ↦ some h | none ↦ other ]

module _ {M H : Type 0} where
  first_open-append :
      (message : M) (bucket : Bucket M H) (guard : Option (M → Bool)) (fn : H)
      → first_open message (bucket ++ ((guard, fn) ∷ [])) ≡ elim (first_open message bucket) [
        | some h ↦ some h
        | none ↦ if passes guard message then some fn else none
      ]
  unfolding first_open
  first_open-append message [] guard fn = ground arith
  first_open-append message ((g, k) ∷ bucket) guard fn =
      ground (arith, first_open-append message bucket guard fn)

  step-keeps :
      (names : List Text) (guard : Option (M → Bool)) (fn : H) (steps : Dict Text (Bucket M H))
      (message : M) (name : Text) (h : H)
      → first_open message (bucket_of name steps) ≡ some h
      → first_open message (bucket_of name (step names guard fn steps).0) ≡ some h
  unfolding step
  step-keeps [] guard fn steps message name h e = e
  step-keeps (n ∷ names) guard fn steps message name h e =
      elim (Bool-cases (is_open guard && any (λ (g, _). is_open g) (bucket_of n steps))) [
        | inl raised ↦
            rw (raised, step)
              (ground (arith, text_beq_iff n name, get-put n name (bucket_of n steps) steps))
        | inr fine ↦
            rw (fine, step)
              (step-keeps names guard fn _ message name h (
                ground (
                  arith,
                  text_beq_iff n name,
                  get-put n name (bucket_of n steps ++ ((guard, fn) ∷ [])) steps,
                  first_open-append message (bucket_of n steps) guard fn,
                )))
      ]

  -- A registration never takes a message away from the handler that it had: whatever is registered
  -- later, with whatever guard, and whether or not it raises, a message that was handled is
  -- handled by the same handler.
  pub resolve-step :
      (names : List Text) (guard : Option (M → Bool)) (fn : H) (steps : Dict Text (Bucket M H))
      (message : M) (name : Option Text) (h : H)
      → resolve name message steps ≡ some h
      → resolve name message (step names guard fn steps).0 ≡ some h
  unfolding resolve
  resolve-step names guard fn steps message none h e = e
  resolve-step names guard fn steps message (some []) h e = e
  resolve-step names guard fn steps message (some (c ∷ cs)) h e =
      step-keeps names guard fn steps message (c ∷ cs) h e

  -- A guarded handler and then one without a guard, for a step that had none: a message that the
  -- guard refuses falls through to the second.
  pub resolve-step_fallback :
      (c : ℕ) (cs : Text) (guard : M → Bool) (first second : H) (steps : Dict Text (Bucket M H))
      (message : M)
      → get (c ∷ cs) steps ≡ none
      → resolve
          (some (c ∷ cs))
          message
          (step ((c ∷ cs) ∷ []) none second (step ((c ∷ cs) ∷ []) (some guard) first steps).0).0
        ≡ some (if guard message then first else second)
  unfolding resolve step
  resolve-step_fallback c cs guard first second steps message h = ground (
    arith,
    get-put_self (c ∷ cs) ((some guard, first) ∷ []) steps,
    get-put_self (c ∷ cs) ((some guard, first) ∷ (none, second) ∷ [])
        (put (c ∷ cs) ((some guard, first) ∷ []) steps),
  )

  abbrev pub register : List (Registered M H) → Dict Text (Bucket M H) → Dict Text (Bucket M H)
  register [] steps = steps
  register ((names, guard, fn) ∷ calls) steps = register calls (step names guard fn steps).0

  -- No call raises.
  abbrev pub Accepted : List (Registered M H) → Dict Text (Bucket M H) → Type 0
  Accepted [] steps = Unit {0}
  Accepted ((names, guard, fn) ∷ calls) steps =
      ((step names guard fn steps).1 ≡ none) × Accepted calls (step names guard fn steps).0

  -- The call is for this step, and its guard takes the message.
  abbrev pub takes : Text → M → Registered M H → Bool
  takes name message (names, guard, fn) = contains name names && passes guard message

  -- The handler stands in a call that takes the message, behind calls that do not.
  abbrev pub First : Text → M → List (Registered M H) → Option H → Type 0
  First name message calls none = All (λ call. takes name message call ≡ false) calls
  First name message calls (some fn) =
      (before : List (Registered M H)) × (names : List Text) × (guard : Option (M → Bool))
      × (after : List (Registered M H)) × (calls ≡ before ++ ((names, guard, fn) ∷ after))
      × (takes name message (names, guard, fn) ≡ true)
      × All (λ call. takes name message call ≡ false) before

  step-takes :
      (names : List Text) (guard : Option (M → Bool)) (fn : H) (steps : Dict Text (Bucket M H))
      (message : M) (name : Text)
      → (step names guard fn steps).1 ≡ none
      → first_open message (bucket_of name (step names guard fn steps).0)
        ≡ first_of
            (first_open message (bucket_of name steps))
            (if takes name message (names, guard, fn) then some fn else none)
  unfolding step
  step-takes [] guard fn steps message name e = ground arith
  step-takes (n ∷ names) guard fn steps message name e =
      elim (Bool-cases (is_open guard && any (λ (g, _). is_open g) (bucket_of n steps))) [
        | inl raised ↦ let e' : some n ≡ none = rw (raised, step) at e in cc
        | inr fine ↦
            rw (fine, step)
              (step-takes names guard fn _ message name (rw (fine, step) at e)
                ∙ ground (
                  arith,
                  text_beq_iff n name,
                  get-put n name (bucket_of n steps ++ ((guard, fn) ∷ [])) steps,
                  first_open-append message (bucket_of n steps) guard fn,
                ))
      ]

  first_call : Text → M → List (Registered M H) → Option H
  first_call name message [] = none
  first_call name message ((names, guard, fn) ∷ calls) =
      if takes name message (names, guard, fn) then some fn else first_call name message calls

  register-first_call :
      (calls : List (Registered M H)) (steps : Dict Text (Bucket M H)) (message : M) (name : Text)
      → Accepted calls steps
      → first_open message (bucket_of name (register calls steps))
        ≡ first_of (first_open message (bucket_of name steps)) (first_call name message calls)
  unfolding first_call
  register-first_call [] steps message name e = ground arith
  register-first_call ((names, guard, fn) ∷ calls) steps message name e =
      register-first_call calls (step names guard fn steps).0 message name e.1
      ∙ ground (arith, step-takes names guard fn steps message name e.0)

  first_call-First :
      (name : Text) (message : M) (calls : List (Registered M H))
      → First name message calls (first_call name message calls)
  unfolding first_call
  first_call-First name message [] = tt
  first_call-First name message ((names, guard, fn) ∷ calls) =
      elim (Bool-cases (takes name message (names, guard, fn))) [
        | inl e ↦ rw e ([], names, guard, calls, refl, e, tt)
        | inr e ↦
            rw e (later (first_call name message calls) (first_call-First name message calls) e)
      ]
    where
      later :
          (found : Option H)
          → First name message calls found
          → takes name message (names, guard, fn) ≡ false
          → First name message ((names, guard, fn) ∷ calls) found
      later none h e = (e, h)
      later (some k) (before, ns, g, after, split, ok, all) e =
          ((names, guard, fn) ∷ before, ns, g, after, cc, ok, (e, all))

  -- After any calls of the decorator on an empty table, none of which raises, `resolve` of a named
  -- step returns the function of the first call, in the order of registration, that names this step
  -- and whose guard takes the message, and None only if there is no such call.
  pub resolve-First :
      (c : ℕ) (cs : Text) (message : M) (calls : List (Registered M H))
      → Accepted calls []
      → First (c ∷ cs) message calls (resolve (some (c ∷ cs)) message (register calls []))
  unfolding resolve first_open
  resolve-First c cs message calls e =
      subst (First (c ∷ cs) message calls) (sym (register-first_call calls [] message (c ∷ cs) e))
        (first_call-First (c ∷ cs) message calls)
