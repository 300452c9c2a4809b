-- ===== src/AddEngine/Joined/Examples.antt =====
-- Tests and instances of the theorems.
use add_members.Base.{ℕ, zero, suc, ◌≡◌, refl, ◌↔◌, max, true, Option, none, some, codes}
use add_members.AddEngine.Joined.{
  Status, enum_name, printed, confirm_joined, normalize_member_status,
}
use add_members.AddEngine.Joined.Confirmation

-- The text that once was read as a member.
left_is_left : normalize_member_status (printed (codes "ChatMemberStatus.LEFT")) ≡ codes "left"
unfolding normalize_member_status
left_is_left = refl

-- First an exception, then a member.
abbrev second_reply : ℕ → Option Status
second_reply zero = none
second_reply (suc n) = some (enum_name (codes "MEMBER"))

confirmed : confirm_joined second_reply 2 ≡ true
unfolding confirm_joined
confirmed = refl

confirm_joined-Confirms_example :
    ((confirm_joined second_reply 2 ≡ true) ↔ Confirmation.Confirms second_reply (max 1 2))
    × ((i : ℕ) → Confirmation.Inside (second_reply i) → ¬ Confirmation.Outside (second_reply i))
confirm_joined-Confirms_example = Confirmation.confirm_joined-Confirms second_reply 2
