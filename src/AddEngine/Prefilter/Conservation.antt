-- ===== src/AddEngine/Prefilter/Conservation.antt =====
-- Every member is counted once: as kept or as removed.
use add_members.Base.{
  ℕ, zero, suc, ◌+◌, ◌≤◌, ◌≡◌, refl, ap, inl, inr, Bool, true, false, Option, List, [], ◌∷◌, ◌++◌,
  Dict, Text, Option-cases, arith, take, drop, length, length-append, length-drop, take-append-drop,
}
use add_members.AddEngine.Members.{Member}
use add_members.AddEngine.Prefilter.{User}
use add_members.AddEngine.Prefilter.Loop.{
  Reply, users, error, Progress, Outcome, next, stop, stage, ids_of, fetched_of, found, verdict,
  judge_one, judge, members_of, on_error, on_reply, batch, batches, start, prefilter_unaddable,
  prefilter_batch,
}

-- The members of whom the loop has disposed.
abbrev handled : Progress → ℕ
handled p = length p.keep + p.removed

length-members_of : (staged : List (ℕ × Member)) → length (members_of staged) ≡ length staged
length-members_of [] = refl
length-members_of (x ∷ staged) = omega (arith, length-members_of staged)

stage-handled :
    (blocked_ids : List ℕ) (members : List Member) (p : Progress)
    → length (stage blocked_ids members p).0 + handled (stage blocked_ids members p).1
      ≡ length members + handled p
unfolding stage
stage-handled blocked_ids [] p = omega arith
stage-handled blocked_ids (m ∷ members) p = ground (arith, stage-handled blocked_ids members p)

judge_one-handled :
    (mark_blocked strict_privacy asked : Bool) (fetched : Dict ℕ (Option User)) (x : ℕ × Member)
    (p : Progress)
    → handled (judge_one mark_blocked strict_privacy asked fetched x p) ≡ handled p + 1
unfolding judge_one
judge_one-handled mark_blocked strict_privacy asked fetched (uid, m) p =
    elim (Option-cases (verdict strict_privacy asked (found uid fetched))) [
      | inl e ↦ rw (e, judge_one) (omega (arith, length-append p.keep (m ∷ [])))
      | inr (why, e) ↦ rw (e, judge_one) (ground arith)
    ]

judge-handled :
    (mark_blocked strict_privacy asked : Bool) (fetched : Dict ℕ (Option User))
    (chunk : List (ℕ × Member)) (p : Progress)
    → handled (judge mark_blocked strict_privacy asked fetched chunk p) ≡ handled p + length chunk
unfolding judge
judge-handled mark_blocked strict_privacy asked fetched [] p = omega arith
judge-handled mark_blocked strict_privacy asked fetched (x ∷ chunk) p = omega (
  arith,
  judge-handled mark_blocked strict_privacy asked fetched chunk
      (judge_one mark_blocked strict_privacy asked fetched x p),
  judge_one-handled mark_blocked strict_privacy asked fetched x p,
)

-- What an outcome has handled of a batch and of what stands behind it.
abbrev Handles : ℕ → ℕ → ℕ → Outcome → Type 0
Handles before chunk rest (next p) = handled p ≡ before + chunk
Handles before chunk rest (stop p) = handled p ≡ before + chunk + rest

on_error-Handles :
    (name message : Text) (chunk rest : List (ℕ × Member)) (p : Progress)
    → Handles (handled p) (length chunk) (length rest) (on_error name message chunk rest p)
unfolding on_error
on_error-Handles name message chunk rest p = ground (
  arith,
  length-members_of chunk,
  length-members_of rest,
  length-members_of (chunk ++ rest),
  length-append chunk rest,
  length-append p.keep (members_of chunk),
  length-append p.keep (members_of (chunk ++ rest)),
  length-append (p.keep ++ members_of chunk) (members_of rest),
)

module _ (mark_blocked strict_privacy : Bool) (get_users : ℕ → List ℕ → Reply) where
  on_reply-Handles :
      (chunk rest : List (ℕ × Member)) (p : Progress) (reply : Reply)
      → Handles
          (handled p)
          (length chunk)
          (length rest)
          (on_reply mark_blocked strict_privacy get_users chunk rest p reply)
  on_reply-Handles chunk rest p (error name message) = on_error-Handles name message chunk rest p
  on_reply-Handles chunk rest p (users reply) =
      judge-handled mark_blocked strict_privacy true (fetched_of reply []) chunk _

  batch-Handles :
      (chunk rest : List (ℕ × Member)) (p : Progress)
      → Handles
          (handled p)
          (length chunk)
          (length rest)
          (batch mark_blocked strict_privacy get_users chunk rest p)
  unfolding batch
  batch-Handles chunk rest p =
      elim (ids_of chunk)
        as (λ ids. Handles (handled p) (length chunk) (length rest) (elim ids [
          | [] ↦ next (judge mark_blocked strict_privacy false [] chunk p)
          | uid ∷ uids ↦
              on_reply mark_blocked strict_privacy get_users chunk rest p
                (get_users p.requests (uid ∷ uids))
        ])) [
          | [] ↦ judge-handled mark_blocked strict_privacy false [] chunk p
          | uid ∷ uids ↦ on_reply-Handles chunk rest p (get_users p.requests (uid ∷ uids))
        ]

  batches-handled :
      (fuel : ℕ) (staged : List (ℕ × Member)) (p : Progress)
      → length staged ≤ fuel
      → handled (batches mark_blocked strict_privacy get_users fuel staged p)
        ≡ handled p + length staged
  unfolding batches
  batches-handled fuel [] p h = omega arith
  batches-handled zero (x ∷ staged) p h = absurd (omega arith)
  batches-handled (suc fuel) (x ∷ staged) p h =
      split (batch mark_blocked strict_privacy get_users chunk rest p) (batch-Handles chunk rest p)
        (λ p'. batches-handled fuel rest p')
    where
      chunk : List (ℕ × Member)
      chunk = take prefilter_batch (x ∷ staged)

      rest : List (ℕ × Member)
      rest = drop prefilter_batch (x ∷ staged)

      parts : (length chunk + length rest ≡ suc (length staged)) × (length rest ≤ length staged)
      parts = (
        omega (
          arith,
          length-append chunk rest,
          ap (λ (l : List (ℕ × Member)). length l) (take-append-drop prefilter_batch (x ∷ staged)),
        ),
        omega (arith, length-drop prefilter_batch (x ∷ staged)),
      )

      split :
          (o : Outcome)
          → Handles (handled p) (length chunk) (length rest) o
          → ((p' : Progress)
              → length rest ≤ fuel
              → handled (batches mark_blocked strict_privacy get_users fuel rest p')
                ≡ handled p' + length rest)
          → handled (elim o [
            | stop p' ↦ p'
            | next p' ↦ batches mark_blocked strict_privacy get_users fuel rest p'
          ])
            ≡ handled p + suc (length staged)
      split (stop p') k ih = omega (arith, parts.0)
      split (next p') k ih = omega (arith, parts.0, parts.1, ih p')

  -- Nobody is lost and nobody is counted twice: whatever the replies are, errors and floods
  -- included, the number of members kept and the number removed add up to the number given.
  pub prefilter_unaddable-handled :
      (blocked_ids : List ℕ) (members : List Member)
      → length (prefilter_unaddable mark_blocked strict_privacy get_users blocked_ids members).keep
          + (prefilter_unaddable mark_blocked strict_privacy get_users blocked_ids members).removed
        ≡ length members
  unfolding prefilter_unaddable
  prefilter_unaddable-handled blocked_ids members = omega (
    arith,
    stage-handled blocked_ids members start,
    batches-handled (length (stage blocked_ids members start).0) (stage blocked_ids members start).0
        (stage blocked_ids members start).1 (omega arith),
  )
