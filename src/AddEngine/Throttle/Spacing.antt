-- ===== src/AddEngine/Throttle/Spacing.antt =====
-- Invitations of all accounts together are spread over time.
use add_members.Base.{
  ℕ, ◌+◌, ◌*◌, ◌≤◌, true, List, [], ◌∷◌, All, arith, Bool-cases, inl, inr, ◌≡◌, ◌-◌, some, none,
  if◌then◌else◌,
}
use add_members.AddEngine.Throttle.{interval_bounds, Invite, interval, global_throttle}

-- The calls in the order in which they get the lock, from any accounts.
unfoldable pub run : ℕ → List Invite → ℕ
run last [] = last
run last (invite ∷ invites) = run (global_throttle true last invite).1 invites

-- What is known of the draws and of `asyncio.sleep`: a draw is within the bounds of its mode, and
-- a sleep is at least as long as was asked, if nothing raises.
abbrev pub Plausible : ℕ → List Invite → Type 0
Plausible last [] = Unit
Plausible last (invite ∷ invites) =
    elim invite.draw [
      | some drawn ↦
          ((interval_bounds invite.add_mode).0 ≤ drawn)
          × (drawn ≤ (interval_bounds invite.add_mode).1)
      | none ↦ Unit {0}
    ]
    × (invite.lock_works ≡ true → invite.now + (global_throttle true last invite).0 ≤ invite.after)
    × Plausible (global_throttle true last invite).1 invites

-- The shortest interval of the invitation is at least `gap`.
abbrev pub AtLeast : ℕ → Invite → Type 0
AtLeast gap invite = elim invite.draw [
  | some _ ↦ gap ≤ (interval_bounds invite.add_mode).0
  | none ↦ gap ≤ 1000000
]

-- The invitations that get the lock.
abbrev pub locked : List Invite → ℕ
locked [] = 0
locked (invite ∷ invites) = if invite.lock_works then locked invites + 1 else locked invites

-- With the throttle on, let each draw be within the bounds of its mode, each sleep be as long as was
-- asked or longer, and the shortest interval of each invitation be at least `gap` (the lower bound of
-- its mode, or a second if the draw raises). Then from the invitation before them, the `n` invitations
-- that get the lock take at least `n * gap` microseconds, however many accounts send them. Invitations
-- whose lock raises a RuntimeError are not counted, and do not shorten this time.
pub run-elapsed :
    (gap last : ℕ) (invites : List Invite)
    → Plausible last invites
    → All (AtLeast gap) invites
    → last + locked invites * gap ≤ run last invites
unfolding run global_throttle
run-elapsed gap last [] p h = omega arith
run-elapsed gap last (invite ∷ invites) p h = elim (Bool-cases invite.lock_works) [
  | inl e ↦
      let least : gap ≤ interval invite = ground (arith, h.0, p.0) in
      let ih : invite.after + locked invites * gap ≤ run invite.after invites =
        run-elapsed gap invite.after invites (rw e at p.2) h.1 in
      let slept : invite.now + (last + interval invite - invite.now) ≤ invite.after =
        rw e at (p.1 e) in
      rw (e, run, global_throttle) (omega (arith, least, ih, slept))
  | inr e ↦ rw (e, run, global_throttle) (run-elapsed gap last invites (rw e at p.2) h.1)
]

-- Every mode that the bot knows keeps two invitations at least 0.6 seconds apart, also one that the
-- table does not have.
pub interval_bounds-le : (add_mode : _) → 600000 ≤ (interval_bounds add_mode).0
unfolding interval_bounds
interval_bounds-le add_mode = ground arith
