-- ===== src/GroupManager/Commands.antt =====
-- group_manager.py: the commands of admins. A message has a sender; the requests of one command all
-- work or all fail, and a failure is only told.
pub mod Allowed
pub mod Targets
mod Examples
use add_members.Base.{
  ℕ, suc, ◌+◌, ◌-◌, Bool, true, false, not, ◌&&◌, Option, none, some, List, [], ◌∷◌, Text, ℤ,
  nat_beq, take, keep_if, if◌then◌else◌,
}
use add_members.AddEngine.Target
use add_members.AddEngine.Target.{is_number}
use add_members.GroupManager.Durations
use add_members.GroupManager.Durations.{parse_duration}
use add_members.GroupManager.Warnings
use add_members.GroupManager.Warnings.{add_warn, db_warn_reset}

-- A command: `args` is `m.command[1:]`, and `reply` the id and the author of the message replied to.
pub record Message : Type 0 where
  pub chat_id : ℤ
  pub message_id : ℕ
  pub from_user : ℕ
  pub reply : Option (ℕ × Option ℕ)
  pub args : List Text

-- What Telegram and Python answer, whether the requests work, and whether the database does.
pub record Outside : Type 0 where
  pub texts : Target.Library
  pub times : Durations.Library
  pub user_by_id : ℤ → Option ℕ
  pub user_by_name : Text → Option ℕ
  pub is_admin : ℕ → Bool
  pub works : Bool
  pub saves : Bool

pub data Call : Type 0 where
  banned : (user_id : ℕ) (seconds : Option ℕ) → Call
  muted : (user_id seconds : ℕ) → Call
  unbanned unmuted promoted demoted : (user_id : ℕ) → Call
  deleted : List ℕ → Call
  warned : List Warnings.Call → Call

unfoldable pub named_user : Outside → Text → Option ℕ
unfolding is_number
named_user out arg =
    if is_number out.texts arg
    then elim (out.texts.int_of arg) [ none ↦ none | some z ↦ out.user_by_id z ]
    else out.user_by_name (keep_if (λ c. not (nat_beq c 64)) arg)

abbrev pub first_user : Outside → List Text → Option ℕ
first_user out [] = none
first_user out (arg ∷ args) = named_user out arg

-- `_target`
unfoldable pub target : Outside → Message → Option ℕ
unfolding named_user
target out m = elim m.reply [
  | some (_, some uid) ↦ some uid
  | some (_, none) ↦ first_user out m.args
  | none ↦ first_user out m.args
]

-- `_parse_time_arg`, with `idx` 2.
abbrev pub time_arg : Durations.Library → List Text → Option ℕ
time_arg lib (_ ∷ arg ∷ args) = parse_duration lib arg
time_arg lib _ = none

-- An admin's command on a target.
abbrev pub on_target : Outside → Message → (ℕ → List Call) → List Call
on_target out m calls =
    if not (out.is_admin m.from_user)
    then []
    else elim (target out m) [ none ↦ [] | some uid ↦ calls uid ]

abbrev pub if_works : Outside → List Call → List Call
if_works out calls = if out.works then calls else []

-- `_ban`
unfoldable pub ban : Outside → Message → List Call
unfolding target parse_duration
ban out m = on_target out m (λ uid.
    if out.is_admin uid then [] else if_works out (banned uid (time_arg out.times m.args) ∷ []))

-- `_unban`
unfoldable pub unban : Outside → Message → List Call
unfolding target
unban out m = on_target out m (λ uid. if_works out (unbanned uid ∷ []))

-- `_kick`
unfoldable pub kick : Outside → Message → List Call
unfolding target
kick out m = on_target out m (λ uid. if_works out (banned uid (some 45) ∷ unbanned uid ∷ []))

-- `_mute`
unfoldable pub mute : Outside → Message → List Call
unfolding target parse_duration
mute out m = on_target out m (λ uid.
    if_works out
      (muted uid (elim (time_arg out.times m.args) [ none ↦ 3600 | some dur ↦ dur ]) ∷ []))

-- `_unmute`
unfoldable pub unmute : Outside → Message → List Call
unfolding target
unmute out m = on_target out m (λ uid. if_works out (unmuted uid ∷ []))

-- `_warn`: the table afterwards, and the calls.
unfoldable pub warn :
    Outside → Warnings.Settings → Message → Warnings.Table → Warnings.Table × List Call
unfolding target add_warn
warn out s m table = if not (out.is_admin m.from_user) then (table, []) else elim (target out m) [
  | none ↦ (table, [])
  | some uid ↦
      let (table', calls) = add_warn out.saves s m.chat_id uid table in
      (table', warned calls ∷ deleted (m.message_id ∷ []) ∷ [])
]

-- `_resetwarn`
unfoldable pub resetwarn : Outside → Message → Warnings.Table → Warnings.Table
unfolding target db_warn_reset
resetwarn out m table = if not (out.is_admin m.from_user) then table else elim (target out m) [
  | none ↦ table
  | some uid ↦ db_warn_reset out.saves m.chat_id uid table
]

-- `range(start, start + count)`
unfoldable pub range : ℕ → ℕ → List ℕ
range start ℕ.zero = []
range start (suc count) = start ∷ range (start + 1) count

-- `_purge`
unfoldable pub purge : Outside → Message → List Call
unfolding range
purge out m = if not (out.is_admin m.from_user) then [] else elim m.reply [
  | none ↦ []
  | some (start, _) ↦
      if_works out (deleted (take 200 (range start (m.message_id + 1 - start))) ∷ [])
]

-- `_del`
unfoldable pub del : Outside → Message → List Call
del out m = if not (out.is_admin m.from_user) then [] else elim m.reply [
  | none ↦ []
  | some (id, _) ↦ deleted (id ∷ []) ∷ deleted (m.message_id ∷ []) ∷ []
]

-- The owner's command on a target.
abbrev pub by_owner : Outside → ℕ → Message → (ℕ → Call) → List Call
by_owner out owner m call =
    if not (nat_beq m.from_user owner)
    then []
    else elim (target out m) [ none ↦ [] | some uid ↦ if_works out (call uid ∷ []) ]

-- `_promote`
unfoldable pub promote : Outside → ℕ → Message → List Call
unfolding target
promote out owner m = by_owner out owner m promoted

-- `_demote`
unfoldable pub demote : Outside → ℕ → Message → List Call
unfolding target
demote out owner m = by_owner out owner m demoted
