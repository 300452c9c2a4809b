-- ===== src/GroupManager/Warnings.antt =====
-- group_manager.py: warnings and what follows the last of them.
-- The table has the number of warnings by chat and user. `works` says whether the database answers.
-- The calls of the client, which are taken not to raise, are listed oldest first.
pub mod Limit
pub mod Users
mod Examples
use add_members.Base.{
  ℕ, ◌+◌, ◌*◌, Bool, true, false, Option, none, some, List, [], ◌∷◌, ◌++◌, Dict, get, put, pop, ℤ,
  int_eq, nat_eq, pair_eq, leb, if◌then◌else◌,
}

abbrev pub Table : Type 0
Table = Dict (ℤ × ℕ) ℕ

-- `_db_warns`
unfoldable pub db_warns : Bool → ℤ → ℕ → Table → ℕ
db_warns works chat_id user_id table =
    if works then elim (get (chat_id, user_id) table) [ none ↦ 0 | some count ↦ count ] else 0

-- `_db_warn_add`, with the new count, or 0 if the database fails.
unfoldable pub db_warn_add : Bool → ℤ → ℕ → ℕ → Table → Table × ℕ
db_warn_add works chat_id user_id delta table =
    let count : ℕ = elim (get (chat_id, user_id) table) [ none ↦ delta | some old ↦ old + delta ] in
    if works then (put (chat_id, user_id) count table, count) else (table, 0)

-- `_db_warn_reset`
unfoldable pub db_warn_reset : Bool → ℤ → ℕ → Table → Table
db_warn_reset works chat_id user_id table = if works then pop (chat_id, user_id) table else table

pub data WarnAction : Type 0 where
  mute kick ban other : WarnAction

-- The settings that `add_warn` reads.
pub record Settings : Type 0 where
  pub warn_limit : ℕ
  pub warn_action : WarnAction
  pub warn_mute_hours : ℕ

-- A call of the client; a ban may end after some seconds.
pub data Call : Type 0 where
  restricted : (user_id seconds : ℕ) → Call
  banned : (user_id : ℕ) (seconds : Option ℕ) → Call
  unbanned : (user_id : ℕ) → Call
  told_limit : (user_id limit : ℕ) → Call
  told_warning : (user_id count limit : ℕ) → Call

abbrev pub warn_calls : Settings → WarnAction → ℕ → List Call
warn_calls s mute user_id = restricted user_id (s.warn_mute_hours * 3600) ∷ []
warn_calls s kick user_id = banned user_id (some 60) ∷ unbanned user_id ∷ []
warn_calls s ban user_id = banned user_id none ∷ []
warn_calls s other user_id = []

-- `add_warn`
unfoldable pub add_warn : Bool → Settings → ℤ → ℕ → Table → Table × List Call
unfolding db_warn_add db_warn_reset
add_warn works s chat_id user_id table =
    let (table', count) = db_warn_add works chat_id user_id 1 table in
    if leb s.warn_limit count
    then (
      db_warn_reset works chat_id user_id table',
      warn_calls s s.warn_action user_id ++ (told_limit user_id s.warn_limit ∷ []),
    )
    else (table', told_warning user_id count s.warn_limit ∷ [])
