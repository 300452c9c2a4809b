-- ===== src/AddEngine/Joined.antt =====
-- add_engine.py: did an invitation really make the user a member?
-- The replies of Telegram are arguments: `reply i` is that to the i-th `get_chat_member`, and none
-- is an exception.
pub mod Confirmation
pub mod Missing
mod Examples
use add_members.Base.{
  ℕ, zero, suc, ◌+◌, max, Bool, true, false, Option, none, some, List, [], ◌∷◌, Text, codes, strip,
  lower, has_part, after_last_dot, text_eq, contains, nat_eq, nat_beq, if◌then◌else◌,
}

-- `mem.status`: missing, an enum with its value or its name, or something that is only printed.
pub data Status : Type 0 where
  missing : Status
  enum_value enum_name printed : Text → Status

-- `_normalize_member_status`
unfoldable pub normalize_member_status : Status → Text
unfolding strip lower after_last_dot has_part
normalize_member_status missing = []
normalize_member_status (enum_value raw) = lower (strip raw)
normalize_member_status (enum_name raw) = lower (strip raw)
normalize_member_status (printed raw) = lower (strip (after_last_dot raw))

abbrev pub joined_statuses : List Text
joined_statuses =
    codes "member"
    ∷ codes "administrator"
    ∷ codes "creator"
    ∷ codes "owner"
    ∷ codes "admin"
    ∷ codes "restricted"
    ∷ []

abbrev pub not_joined_statuses : List Text
not_joined_statuses =
    codes "left" ∷ codes "banned" ∷ codes "kicked" ∷ codes "restricted_banned" ∷ []

-- What one reply settles: none asks again.
unfoldable pub settles : Option Status → Option Bool
unfolding normalize_member_status
settles none = none
settles (some status) =
    if contains (normalize_member_status status) not_joined_statuses
    then some false
    else if contains (normalize_member_status status) joined_statuses
    then some true
    else none

-- The loop, with the rounds that are left and the number of the next request.
unfoldable pub ask_from : (ℕ → Option Status) → ℕ → ℕ → Bool
unfolding settles
ask_from reply zero i = false
ask_from reply (suc rounds) i = elim (settles (reply i)) [
  | some answer ↦ answer
  | none ↦ ask_from reply rounds (i + 1)
]

unfoldable pub confirm_joined : (ℕ → Option Status) → ℕ → Bool
unfolding ask_from
confirm_joined reply retries = ask_from reply (max 1 retries) 0

-- `updates.missing_invitees`: the id of each item, none where it has none.
unfoldable pub names_missing : ℕ → List (Option ℕ) → Bool
names_missing uid [] = false
names_missing uid (none ∷ missing_invitees) = names_missing uid missing_invitees
names_missing uid (some mid ∷ missing_invitees) =
    let rest = names_missing uid missing_invitees in if nat_beq mid uid then true else rest

-- `invite_did_not_join`: no updates at all are read as an addition.
unfoldable pub invite_did_not_join : Option (List (Option ℕ)) → ℕ → Bool
unfolding names_missing
invite_did_not_join none uid = false
invite_did_not_join (some missing_invitees) uid = names_missing uid missing_invitees
