-- ===== src/AddEngine/Target/Reached.antt =====
-- add_engine.py, `resolve_target_for_account`: when an account reaches the target.
use add_members.Base.{
  ◌≡◌, ◌↔◌, ◌⊎◌, refl, none, some, List, [], ◌∷◌, Text, All, Option-cases, inl, inr, arith,
}
use add_members.AddEngine.Target.{Library, ChatRef, or_text}
use add_members.AddEngine.Target.Account.{
  Chat, Client, dest_of, attempts, try_refs, try_target, resolve_target_for_account, show_ref,
}

module _ {P : Type 0} (client : Client P) where
  -- The chat is not found, or neither the reference nor the id of the chat found gives a peer.
  abbrev pub IsDead : ChatRef → Type 0
  IsDead ref =
      (client.get_chat ref ≡ none)
      ⊎ ((chat : Chat) × (client.get_chat ref ≡ some chat)
          × (client.resolve_peer ref ≡ none)
          × (client.resolve_peer (dest_of ref chat) ≡ none))

  abbrev found : ChatRef → Chat → P → ChatRef × P × Text
  found ref chat peer = (dest_of ref chat, peer, or_text chat.title (show_ref (dest_of ref chat)))

  -- A reference whose chat is found is dead only if neither it nor the id gives a peer.
  IsDead-some :
      (ref : ChatRef) (chat : Chat)
      → client.get_chat ref ≡ some chat
      → IsDead ref
      → (client.resolve_peer ref ≡ none) × (client.resolve_peer (dest_of ref chat) ≡ none)
  IsDead-some ref chat e (inl h) = absurd (ground (arith, e, h))
  IsDead-some ref chat e (inr (other, h, f, g)) =
      let same : other ≡ chat = ground (arith, e, h) in (f, rw (← same) g)

  -- One round of the loop: it goes on, or gives a peer.
  try_refs-cons :
      (ref : ChatRef) (refs : List ChatRef)
      → (IsDead ref × (try_refs client (ref ∷ refs) ≡ try_refs client refs))
        ⊎ ((IsDead ref → ⊥) × ((r : ChatRef × P × Text) × (try_refs client (ref ∷ refs) ≡ some r)))
  unfolding try_refs
  try_refs-cons ref refs = elim (Option-cases (client.get_chat ref)) [
    | inl e ↦ inl (inl e, rw (try_refs, e) refl)
    | inr (chat, e) ↦ elim (Option-cases (client.resolve_peer ref)) [
      | inr (peer, f) ↦ inr (
        λ dead. ground (arith, (IsDead-some ref chat e dead).0, f),
        (found ref chat peer, rw (try_refs, e, f) refl),
      )
      | inl f ↦ elim (Option-cases (client.resolve_peer (dest_of ref chat))) [
        | inl g ↦ inl (inr (chat, e, f, g), rw (try_refs, e, f, g) refl)
        | inr (peer, g) ↦ inr (
          λ dead. ground (arith, (IsDead-some ref chat e dead).1, g),
          (found ref chat peer, rw (try_refs, e, f, g) refl),
        )
      ]
    ]
  ]

  try_refs-none : (refs : List ChatRef) → (try_refs client refs ≡ none) ↔ All IsDead refs
  unfolding try_refs
  try_refs-none [] = (λ _. tt, λ _. refl)
  try_refs-none (ref ∷ refs) = elim (try_refs-cons ref refs) [
    | inl (dead, e) ↦ (
      λ h. (dead, (try_refs-none refs).0 (ground (arith, h, e))),
      λ h. rw e ((try_refs-none refs).1 h.1),
    )
    | inr (alive, (r, e)) ↦ (λ h. absurd (ground (arith, h, e)), λ h. absurd (alive h.0))
  ]

  try_target-none :
      (target : ChatRef) → (try_target client target ≡ none) ↔ (client.resolve_peer target ≡ none)
  unfolding try_target
  try_target-none target = elim (Option-cases (client.resolve_peer target)) [
    | inl e ↦ rw (try_target, e) (λ _. refl, λ _. refl)
    | inr (peer, e) ↦
        rw (try_target, e) (λ h. absurd (ground (arith, h)), λ h. absurd (ground (arith, h)))
  ]

  attempted :
      (lib : Library) (target : ChatRef) (hint : Text) (refs : List ChatRef)
      → attempts lib hint target ≡ some refs
      → (resolve_target_for_account client lib target hint ≡ none)
        ↔ (All IsDead refs × (client.resolve_peer target ≡ none))
  unfolding resolve_target_for_account
  attempted lib target hint refs e = elim (Option-cases (try_refs client refs)) [
    | inl f ↦
        rw (resolve_target_for_account, e, f)
          (
            λ h. ((try_refs-none refs).0 f, (try_target-none target).0 h),
            λ h. (try_target-none target).1 h.1,
          )
    | inr (r, f) ↦
        rw (resolve_target_for_account, e, f)
          (
            λ h. absurd (ground (arith, h)),
            λ h. absurd (ground (arith, f, (try_refs-none refs).1 h.0)),
          )
  ]

  -- An account fails to reach the target exactly if the hint cannot be read, or if every reference
  -- that is tried fails, and the target alone gives no peer either. A reference fails if its chat is
  -- not found, or if neither it nor the id of that chat gives a peer.
  pub resolve_target_for_account-none :
      (lib : Library) (target : ChatRef) (hint : Text)
      → (resolve_target_for_account client lib target hint ≡ none) ↔ (
          (attempts lib hint target ≡ none)
          ⊎ ((refs : List ChatRef) × (attempts lib hint target ≡ some refs)
              × All IsDead refs
              × (client.resolve_peer target ≡ none)))
  unfolding resolve_target_for_account
  resolve_target_for_account-none lib target hint = elim (Option-cases (attempts lib hint target)) [
    | inl e ↦ (λ _. inl e, λ _. rw (resolve_target_for_account, e) refl)
    | inr (refs, e) ↦ (
      λ h.
          let (dead, silent) = (attempted lib target hint refs e).0 h in
          inr (refs, e, dead, silent),
      λ h. (attempted lib target hint refs e).1 (same refs e h),
    )
  ]
    where
      same :
          (refs : List ChatRef)
          → attempts lib hint target ≡ some refs
          → (attempts lib hint target ≡ none)
            ⊎ ((others : List ChatRef) × (attempts lib hint target ≡ some others)
                × All IsDead others
                × (client.resolve_peer target ≡ none))
          → All IsDead refs × (client.resolve_peer target ≡ none)
      same refs e (inl h) = absurd (ground (arith, e, h))
      same refs e (inr (others, h, dead, silent)) =
          let eq : refs ≡ others = ground (arith, e, h) in rw eq (dead, silent)
