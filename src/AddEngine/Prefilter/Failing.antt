-- ===== src/AddEngine/Prefilter/Failing.antt =====
-- The filter is only an optimisation: when Telegram does not answer, nobody is dropped.
use add_members.Base.{
  ℕ, zero, suc, ◌+◌, ◌≤◌, ◌≡◌, refl, ◌∙◌, ap, sym, subst, inl, inr, Bool, false, not, ◌||◌, List,
  [], ◌∷◌, ◌++◌, Text, Bool-cases, arith, take, drop, length, nat_eq, nat_beq, contains, keep_if,
  length-drop, take-append-drop, leb,
}
use mathlib.Core.List.{append-nil, append_assoc, map-append}
use add_members.AddEngine.Members.{Member}
use add_members.AddEngine.Prefilter.{member_uid}
use add_members.AddEngine.Prefilter.Loop.{
  Reply, error, Progress, Outcome, next, stop, stage, ids_of, verdict, judge_one, judge, members_of,
  is_flood, on_error, on_reply, batch, batches, start, prefilter_unaddable, prefilter_batch,
}

-- From `p` to `p'` the members `ms` were kept, and nobody was removed or marked.
abbrev Quiet : Progress → List Member → Progress → Type 0
Quiet p ms p' = (p'.keep ≡ p.keep ++ ms) × (p'.removed ≡ p.removed) × (p'.marked ≡ p.marked)

-- Each request so far failed, and there were at most two.
abbrev Early : Progress → Type 0
Early p = (p.requests ≡ p.consecutive_errors) × (p.consecutive_errors ≤ 2)

judge_quiet :
    (mark_blocked strict_privacy : Bool) (chunk : List (ℕ × Member)) (p : Progress)
    → judge mark_blocked strict_privacy false [] chunk p
      ≡ record p { keep = p.keep ++ members_of chunk }
unfolding judge judge_one verdict
judge_quiet mark_blocked strict_privacy [] p = ground (arith, append-nil p.keep)
judge_quiet mark_blocked strict_privacy ((uid, m) ∷ chunk) p =
    judge_quiet mark_blocked strict_privacy chunk (record p { keep = p.keep ++ (m ∷ []) })
    ∙ ap (λ (l : List Member). record p { keep = l })
        (append_assoc p.keep (m ∷ []) (members_of chunk))

abbrev Spares : Progress → List (ℕ × Member) → List (ℕ × Member) → Outcome → Type 0
Spares p chunk rest (next p') = Quiet p (members_of chunk) p' × Early p'
Spares p chunk rest (stop p') = Quiet p (members_of chunk ++ members_of rest) p' × (p'.requests ≤ 3)

on_error-Spares :
    (name message : Text) (chunk rest : List (ℕ × Member)) (p : Progress)
    → Early p
    → Spares p chunk rest (on_error name message chunk rest p)
unfolding on_error
on_error-Spares name message chunk rest p h = elim (Bool-cases (is_flood name message)) [
  | inl e ↦ rw e ((cc (map-append (λ (x : ℕ × Member). x.1) chunk rest), refl, refl), omega arith)
  | inr e ↦ elim (Bool-cases (leb 3 (p.consecutive_errors + 1))) [
    | inl f ↦
        rw (e, f)
          ((append_assoc p.keep (members_of chunk) (members_of rest), refl, refl), omega arith)
    | inr f ↦ rw (e, f) ((refl, refl, refl), (omega arith, ground arith))
  ]
]

module _ (mark_blocked strict_privacy : Bool) (failure : ℕ → Text × Text) where
  -- Every request raises, with this class name and text.
  abbrev pub refused : ℕ → List ℕ → Reply
  refused n ids = error (failure n).0 (failure n).1

  batch-Spares :
      (chunk rest : List (ℕ × Member)) (p : Progress)
      → Early p
      → Spares p chunk rest (batch mark_blocked strict_privacy refused chunk rest p)
  unfolding batch
  batch-Spares chunk rest p h =
      elim (ids_of chunk)
        as (λ ids. Spares p chunk rest (elim ids [
          | [] ↦ next (judge mark_blocked strict_privacy false [] chunk p)
          | uid ∷ uids ↦
              on_reply mark_blocked strict_privacy refused chunk rest p
                (refused p.requests (uid ∷ uids))
        ])) [
          | [] ↦ rw (judge_quiet mark_blocked strict_privacy chunk p) ((refl, refl, refl), h)
          | uid ∷ uids ↦
              on_error-Spares (failure p.requests).0 (failure p.requests).1 chunk rest p h
        ]

  abbrev Spared : Progress → List Member → Progress → Type 0
  Spared p ms p' = Quiet p ms p' × (p'.requests ≤ 3)

  batches-Spared :
      (fuel : ℕ) (staged : List (ℕ × Member)) (p : Progress)
      → length staged ≤ fuel
      → Early p
      → Spared p (members_of staged) (batches mark_blocked strict_privacy refused fuel staged p)
  unfolding batches
  batches-Spared fuel [] p h early = ((ground (arith, append-nil p.keep), refl, refl), omega arith)
  batches-Spared zero (x ∷ staged) p h early = absurd (omega arith)
  batches-Spared (suc fuel) (x ∷ staged) p h early =
      subst
        (λ ms. Spared p ms (batches mark_blocked strict_privacy refused (suc fuel) (x ∷ staged) p))
        parts
        (split (batch mark_blocked strict_privacy refused chunk rest p)
          (batch-Spares chunk rest p early)
          (λ p'.
            batches-Spared fuel rest p' (omega (arith, length-drop prefilter_batch (x ∷ staged)))))
    where
      chunk : List (ℕ × Member)
      chunk = take prefilter_batch (x ∷ staged)

      rest : List (ℕ × Member)
      rest = drop prefilter_batch (x ∷ staged)

      parts : members_of chunk ++ members_of rest ≡ members_of (x ∷ staged)
      parts =
          sym (map-append (λ (y : ℕ × Member). y.1) chunk rest)
          ∙ ap members_of (take-append-drop prefilter_batch (x ∷ staged))

      split :
          (o : Outcome)
          → Spares p chunk rest o
          → ((p' : Progress)
              → Early p'
              → Spared p'
                  (members_of rest)
                  (batches mark_blocked strict_privacy refused fuel rest p'))
          → Spared p (members_of chunk ++ members_of rest) (elim o as (λ _. Progress) [
            | stop p' ↦ p'
            | next p' ↦ batches mark_blocked strict_privacy refused fuel rest p'
          ])
      split (stop p') k ih = k
      split (next p') ((a, b, c), e) ih =
          let ((a', b', c'), e') = ih p' e in
          ((cc (append_assoc p.keep (members_of chunk) (members_of rest)), b' ∙ b, c' ∙ c), e')

  stage-quiet :
      (blocked_ids : List ℕ) (members : List Member) (p : Progress)
      → ((stage blocked_ids members p).1.keep ≡ p.keep)
        × ((stage blocked_ids members p).1.marked ≡ p.marked)
        × ((stage blocked_ids members p).1.requests ≡ p.requests)
        × ((stage blocked_ids members p).1.consecutive_errors ≡ p.consecutive_errors)
  unfolding stage
  stage-quiet blocked_ids [] p = (refl, refl, refl, refl)
  stage-quiet blocked_ids (m ∷ members) p = ground (arith, stage-quiet blocked_ids members p)

  members_of-stage :
      (blocked_ids : List ℕ) (members : List Member) (p : Progress)
      → members_of (stage blocked_ids members p).0
        ≡ keep_if
            (λ m. nat_beq (member_uid m) 0 || not (contains (member_uid m) blocked_ids))
            members
  unfolding stage
  members_of-stage blocked_ids [] p = refl
  members_of-stage blocked_ids (m ∷ members) p =
      ground (arith, members_of-stage blocked_ids members p)

  -- If every request fails, in whatever way, the result is the given list, in its order, without the
  -- members whose id (`user_id`, or else `id`) is not 0 and on the list of blocked users; nobody is
  -- put on that list, and at most three requests are made.
  pub prefilter_unaddable-refused :
      (blocked_ids : List ℕ) (members : List Member)
      → ((prefilter_unaddable mark_blocked strict_privacy refused blocked_ids members).keep
          ≡ keep_if
              (λ m. nat_beq (member_uid m) 0 || not (contains (member_uid m) blocked_ids))
              members)
        × ((prefilter_unaddable mark_blocked strict_privacy refused blocked_ids members).marked
            ≡ [])
        × ((prefilter_unaddable mark_blocked strict_privacy refused blocked_ids members).requests
            ≤ 3)
  unfolding prefilter_unaddable
  prefilter_unaddable-refused blocked_ids members =
      let staged : List (ℕ × Member) = (stage blocked_ids members start).0 in
      let p : Progress = (stage blocked_ids members start).1 in
      let (k, m, r, c) = stage-quiet blocked_ids members start in
      let ((keep, removed, marked), few) =
        batches-Spared (length staged) staged p (omega arith)
          (omega (arith, r, c), omega (arith, c)) in
      (
        keep ∙ ap (λ l. l ++ members_of staged) k ∙ members_of-stage blocked_ids members start,
        marked ∙ m,
        few,
      )
