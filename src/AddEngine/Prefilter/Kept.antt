-- ===== src/AddEngine/Prefilter/Kept.antt =====
-- Who is kept, and in which order.
use add_members.Base.{
  ℕ, zero, suc, ◌+◌, ◌≤◌, ◌≡◌, refl, ◌∙◌, ap, sym, subst, inl, inr, Bool, true, false, not, ◌&&◌,
  Option, List, [], ◌∷◌, ◌++◌, Dict, Text, Option-cases, Bool-cases, arith, take, drop, length,
  take-append-drop, contains, nat_eq, length-drop, leb, nat_beq, Sub, done, skip, keep, Sub-refl,
  Sub-trans, Sub-append, All-Sub, All,
}
use mathlib.Core.List.{append-nil, append_assoc, map-append}
use add_members.AddEngine.Members.{Member}
use add_members.AddEngine.Prefilter.{User, member_uid}
use add_members.AddEngine.Prefilter.Loop.{
  Reply, users, error, Progress, Outcome, next, stop, stage, ids_of, fetched_of, found, verdict,
  judge_one, judge, members_of, on_error, is_flood, on_reply, batch, batches, start,
  prefilter_unaddable, prefilter_batch,
}

-- The list `after` is `before`, and behind it some of `ms` in their order.
abbrev Keeps : List Member → List Member → List Member → Type 0
Keeps before ms after = (new : List Member) × (after ≡ before ++ new) × Sub new ms

Keeps-then : (p q r ms ns : List Member) → Keeps p ms q → Keeps q ns r → Keeps p (ms ++ ns) r
Keeps-then p q r ms ns (a, e, s) (b, f, t) = (a ++ b, cc (append_assoc p a b), Sub-append s t)

judge_one-Keeps :
    (mark_blocked strict_privacy asked : Bool) (fetched : Dict ℕ (Option User)) (uid : ℕ)
    (m : Member) (p : Progress)
    → Keeps p.keep (m ∷ []) (judge_one mark_blocked strict_privacy asked fetched (uid, m) p).keep
unfolding judge_one
judge_one-Keeps mark_blocked strict_privacy asked fetched uid m p =
    elim (Option-cases (verdict strict_privacy asked (found uid fetched))) [
      | inl e ↦ rw (e, judge_one) (m ∷ [], refl, keep done)
      | inr (why, e) ↦ rw (e, judge_one) ([], ground (arith, append-nil p.keep), skip done)
    ]

judge-Keeps :
    (mark_blocked strict_privacy asked : Bool) (fetched : Dict ℕ (Option User))
    (chunk : List (ℕ × Member)) (p : Progress)
    → Keeps p.keep (members_of chunk) (judge mark_blocked strict_privacy asked fetched chunk p).keep
unfolding judge
judge-Keeps mark_blocked strict_privacy asked fetched [] p =
    ([], ground (arith, append-nil p.keep), done)
judge-Keeps mark_blocked strict_privacy asked fetched ((uid, m) ∷ chunk) p =
    Keeps-then p.keep (judge_one mark_blocked strict_privacy asked fetched (uid, m) p).keep _
      (m ∷ []) (members_of chunk)
      (judge_one-Keeps mark_blocked strict_privacy asked fetched uid m p)
      (judge-Keeps mark_blocked strict_privacy asked fetched chunk
        (judge_one mark_blocked strict_privacy asked fetched (uid, m) p))

-- The same of an outcome: one that stops has also disposed of what stands behind the batch.
abbrev Continues : List Member → List (ℕ × Member) → List (ℕ × Member) → Outcome → Type 0
Continues before chunk rest (next p) = Keeps before (members_of chunk) p.keep
Continues before chunk rest (stop p) = Keeps before (members_of chunk ++ members_of rest) p.keep

on_error-Continues :
    (name message : Text) (chunk rest : List (ℕ × Member)) (p : Progress)
    → Continues p.keep chunk rest (on_error name message chunk rest p)
unfolding on_error
on_error-Continues name message chunk rest p = elim (Bool-cases (is_flood name message)) [
  | inl e ↦ rw e (
    members_of chunk ++ members_of rest,
    cc (map-append (λ (x : ℕ × Member). x.1) chunk rest),
    Sub-refl _,
  )
  | inr e ↦ elim (Bool-cases (leb 3 (p.consecutive_errors + 1))) [
    | inl f ↦
        rw (e, f)
          (
            members_of chunk ++ members_of rest,
            append_assoc p.keep (members_of chunk) (members_of rest),
            Sub-refl _,
          )
    | inr f ↦ rw (e, f) (members_of chunk, refl, Sub-refl _)
  ]
]

-- The id of the member is 0, or is not on the list.
abbrev pub Unblocked : List ℕ → Member → Type 0
Unblocked blocked_ids m =
    (not (nat_beq (member_uid m) 0) && contains (member_uid m) blocked_ids) ≡ false

module _ (mark_blocked strict_privacy : Bool) (get_users : ℕ → List ℕ → Reply) where
  on_reply-Continues :
      (chunk rest : List (ℕ × Member)) (p : Progress) (reply : Reply)
      → Continues p.keep chunk rest
          (on_reply mark_blocked strict_privacy get_users chunk rest p reply)
  on_reply-Continues chunk rest p (error name message) =
      on_error-Continues name message chunk rest p
  on_reply-Continues chunk rest p (users reply) =
      judge-Keeps mark_blocked strict_privacy true (fetched_of reply []) chunk _

  batch-Continues :
      (chunk rest : List (ℕ × Member)) (p : Progress)
      → Continues p.keep chunk rest (batch mark_blocked strict_privacy get_users chunk rest p)
  unfolding batch
  batch-Continues chunk rest p =
      elim (ids_of chunk)
        as (λ ids. Continues p.keep chunk rest (elim ids [
          | [] ↦ next (judge mark_blocked strict_privacy false [] chunk p)
          | uid ∷ uids ↦
              on_reply mark_blocked strict_privacy get_users chunk rest p
                (get_users p.requests (uid ∷ uids))
        ])) [
          | [] ↦ judge-Keeps mark_blocked strict_privacy false [] chunk p
          | uid ∷ uids ↦ on_reply-Continues chunk rest p (get_users p.requests (uid ∷ uids))
        ]

  batches-Keeps :
      (fuel : ℕ) (staged : List (ℕ × Member)) (p : Progress)
      → length staged ≤ fuel
      → Keeps p.keep
          (members_of staged)
          (batches mark_blocked strict_privacy get_users fuel staged p).keep
  unfolding batches
  batches-Keeps fuel [] p h = ([], ground (arith, append-nil p.keep), done)
  batches-Keeps zero (x ∷ staged) p h = absurd (omega arith)
  batches-Keeps (suc fuel) (x ∷ staged) p h =
      subst
        (λ ms.
          Keeps p.keep ms
            (batches mark_blocked strict_privacy get_users (suc fuel) (x ∷ staged) p).keep)
        parts
        (split (batch mark_blocked strict_privacy get_users chunk rest p)
          (batch-Continues chunk rest p)
          (λ p'.
            batches-Keeps fuel rest p' (omega (arith, length-drop prefilter_batch (x ∷ staged)))))
    where
      chunk : List (ℕ × Member)
      chunk = take prefilter_batch (x ∷ staged)

      rest : List (ℕ × Member)
      rest = drop prefilter_batch (x ∷ staged)

      parts : members_of chunk ++ members_of rest ≡ members_of (x ∷ staged)
      parts =
          sym (map-append (λ (y : ℕ × Member). y.1) chunk rest)
          ∙ ap members_of (take-append-drop prefilter_batch (x ∷ staged))

      split :
          (o : Outcome)
          → Continues p.keep chunk rest o
          → ((p' : Progress)
              → Keeps p'.keep
                  (members_of rest)
                  (batches mark_blocked strict_privacy get_users fuel rest p').keep)
          → Keeps p.keep
              (members_of chunk ++ members_of rest)
              (elim o as (λ _. Progress) [
                | stop p' ↦ p'
                | next p' ↦ batches mark_blocked strict_privacy get_users fuel rest p'
              ]).keep
      split (stop p') k ih = k
      split (next p') k ih =
          Keeps-then p.keep p'.keep _ (members_of chunk) (members_of rest) k (ih p')

  stage-Sub :
      (blocked_ids : List ℕ) (members : List Member) (p : Progress)
      → Sub (members_of (stage blocked_ids members p).0) members
        × All (Unblocked blocked_ids) (members_of (stage blocked_ids members p).0)
        × ((stage blocked_ids members p).1.keep ≡ p.keep)
  unfolding stage
  stage-Sub blocked_ids [] p = (done, tt, refl)
  stage-Sub blocked_ids (m ∷ members) p =
      let (sub, all, same) = stage-Sub blocked_ids members p in
      elim (Bool-cases (not (nat_beq (member_uid m) 0) && contains (member_uid m) blocked_ids)) [
        | inl e ↦ rw e (skip sub, all, same)
        | inr e ↦ rw e (keep sub, (e, all), same)
      ]

  -- Whatever the replies are, the members that are kept stand in the order in which they were
  -- given, and none of them has an id (other than 0) on the list of blocked users.
  pub prefilter_unaddable-Sub :
      (blocked_ids : List ℕ) (members : List Member)
      → Sub
          (prefilter_unaddable mark_blocked strict_privacy get_users blocked_ids members).keep
          members
        × All
            (Unblocked blocked_ids)
            (prefilter_unaddable mark_blocked strict_privacy get_users blocked_ids members).keep
  unfolding prefilter_unaddable
  prefilter_unaddable-Sub blocked_ids members =
      let (sub, all, same) = stage-Sub blocked_ids members start in
      let staged : List (ℕ × Member) = (stage blocked_ids members start).0 in
      let p : Progress = (stage blocked_ids members start).1 in
      let (new, e, s) = batches-Keeps (length staged) staged p (omega arith) in
      let same' : (batches mark_blocked strict_privacy get_users (length staged) staged p).keep
          ≡ new =
        cc in
      (
        subst (λ l. Sub l members) (sym same') (Sub-trans sub s),
        subst (λ l. All (Unblocked blocked_ids) l) (sym same')
            (All-Sub (Unblocked blocked_ids) s all),
      )
