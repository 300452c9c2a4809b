-- ===== src/AddEngine/Joined/Missing.antt =====
-- add_engine.py, `invite_did_not_join`: what it finds in the updates.
use add_members.Base.{
  ℕ, ◌≡◌, refl, ◌↔◌, text_eq, inl, inr, true, Option, none, some, List, [], ◌∷◌, Any, nat_beq,
  nat_beq_iff, arith, Bool-cases, ap, sym, subst,
}
use add_members.AddEngine.Joined.{names_missing, invite_did_not_join}

names_missing-Any :
    (uid : ℕ) (missing_invitees : List (Option ℕ))
    → (names_missing uid missing_invitees ≡ true) ↔ Any (λ mid. mid ≡ some uid) missing_invitees
unfolding names_missing
names_missing-Any uid [] = (λ h. cc, λ h. absurd h)
names_missing-Any uid (none ∷ rest) = (
  λ h. inr ((names_missing-Any uid rest).0 h),
  λ h. elim h [ inl e ↦ cc | inr k ↦ (names_missing-Any uid rest).1 k ],
)
names_missing-Any uid (some mid ∷ rest) = elim (Bool-cases (nat_beq mid uid)) [
  | inl e ↦ (λ h. inl (ap some ((nat_beq_iff mid uid).0 e)), λ h. rw e refl)
  | inr e ↦ (
    λ h. inr ((names_missing-Any uid rest).0 (rw e at h)),
    λ h. elim h [ inl f ↦ ground arith | inr k ↦ rw e ((names_missing-Any uid rest).1 k) ],
  )
]

-- An invitation is read as refused exactly when Telegram sent updates and the id of the user is
-- among their missing invitees; entries without an id are passed over.
pub invite_did_not_join-Any :
    (updates : Option (List (Option ℕ))) (uid : ℕ)
    → (invite_did_not_join updates uid ≡ true) ↔ (
        (missing : List (Option ℕ)) × (updates ≡ some missing)
        × Any (λ mid. mid ≡ some uid) missing)
unfolding invite_did_not_join
invite_did_not_join-Any none uid = (λ h. cc, λ (l, e, a). cc)
invite_did_not_join-Any (some l) uid = (
  λ h. (l, refl, (names_missing-Any uid l).0 h),
  λ (k, e, a). (names_missing-Any uid l).1 (
      subst (λ m. Any (λ mid. mid ≡ some uid) m)
        (ap (λ (o : Option (List (Option ℕ))). elim o [ none ↦ l | some m ↦ m ]) (sym e)) a),
)
