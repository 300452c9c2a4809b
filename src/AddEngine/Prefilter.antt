-- ===== src/AddEngine/Prefilter.antt =====
-- add_engine.py: the privacy filter in front of the add loop.
-- A `User` is the object that Telegram returns. The reply of `app.get_users` is an argument: a
-- function of the number of the call and of the ids that are asked.
pub mod Loop
pub mod Conservation
pub mod Kept
pub mod Failing
mod Examples
use add_members.Base.{
  ℕ, zero, suc, ◌+◌, Bool, true, false, not, ◌&&◌, ◌||◌, Option, none, some, List, [], ◌∷◌, ◌++◌,
  map, Text, codes, strip, lower, after_last_dot, text_eq, nat_eq, nat_beq, contains, has_part, any,
  if◌then◌else◌,
}
use add_members.AddEngine.Members.{Member}

pub record User : Type 0 where
  pub is_deleted : Bool
  pub deleted : Bool
  pub is_bot : Bool
  pub bot : Bool
  pub is_self : Bool
  pub is_scam : Bool
  pub is_fake : Bool
  -- The text of `status.value`, else of `status.name`, else of `str(status)`; none if no status.
  pub status : Option Text

-- The Persian reasons of the source, by their meaning.
pub data Reason : Type 0 where
  blocked not_found deleted_account robot own_account scam hidden_last_seen abandoned : Reason

abbrev pub privacy_hidden_statuses : List Text
privacy_hidden_statuses =
    codes "recently"
    ∷ codes "last_week"
    ∷ codes "lastweek"
    ∷ codes "last_month"
    ∷ codes "lastmonth"
    ∷ []

abbrev pub stale_statuses : List Text
stale_statuses = codes "long_ago" ∷ codes "longago" ∷ codes "empty" ∷ []

-- `_status_token`
unfoldable pub status_token : User → Text
unfolding strip lower after_last_dot has_part
status_token u = elim u.status [ none ↦ [] | some raw ↦ lower (strip (after_last_dot raw)) ]

-- `_is_unaddable_user`: none is `(False, "")`.
unfoldable pub is_unaddable_user : Option User → Bool → Option Reason
unfolding status_token
is_unaddable_user none strict_privacy = some not_found
is_unaddable_user (some u) strict_privacy =
    if u.is_deleted || u.deleted
    then some deleted_account
    else if u.is_bot || u.bot
    then some robot
    else if u.is_self
    then some own_account
    else if not strict_privacy
    then none
    else if u.is_scam || u.is_fake
    then some scam
    else if contains (status_token u) privacy_hidden_statuses
    then some hidden_last_seen
    else if contains (status_token u) stale_statuses
    then some abandoned
    else none

-- The word that is stored in the database for a reason.
unfoldable pub stored_reason : Reason → Text
stored_reason hidden_last_seen = codes "privacy"
stored_reason abandoned = codes "stale"
stored_reason _ = codes "invalid"

-- `int(m.get("user_id") or m.get("id") or 0)`
abbrev pub member_uid : Member → ℕ
member_uid m = if nat_beq m.user_id 0 then m.id else m.user_id
