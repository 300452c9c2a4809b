-- ===== src/GroupManager/Messages.antt =====
-- group_manager.py: what is checked in a message, and what follows a violation.
pub mod Floods
pub mod Gate
pub mod Ignored
mod Examples
use add_members.Base.{
  ℕ, zero, suc, ◌+◌, ◌*◌, ◌/◌, Bool, true, false, not, ◌&&◌, ◌||◌, Option, none, some, List, [],
  ◌∷◌, ◌++◌, map, Text, Dict, get, put, codes, ℤ, int_eq, nat_eq, pair_eq, text_eq, nat_beq, leb,
  ltb, any, drop, length, seconds, starts_with, has_part, if◌then◌else◌, keep_if,
}
use add_members.GroupManager.Window.{drop_old}
use add_members.GroupManager.Joining
use add_members.GroupManager.Joining.{lock_of}
use add_members.GroupManager.Warnings
use add_members.GroupManager.Warnings.{add_warn}

-- What the source takes from Python's texts and its module `re`: the matches of LINK_RE, the number
-- of matches of EMOJI_RE, a search for a pattern (none: the pattern is refused), and the classes
-- and the lower case of characters.
pub record Library : Type 0 where
  pub link_fragments : Text → List Text
  pub emoji_runs : Text → ℕ
  pub search : (pattern text : Text) → Option Bool
  pub lower : Text → Text
  pub is_alpha : ℕ → Bool
  pub is_upper : ℕ → Bool

pub data Media : Type 0 where
  sticker gif voice video_note video photo document contact poll : Media

pub data Kind : Type 0 where
  channel links fwd caps emoji blacklist flood : Kind
  media : Media → Kind

-- The actions that the settings name. `punish` knows no `kick`.
pub data Action : Type 0 where
  delete mute warn ban kick : Action

pub record Settings : Type 0 where
  pub enabled : Bool
  pub captcha : Bool
  pub lock_channel : Bool
  pub lock_links : Bool
  pub whitelist_links : List Text
  pub lock_fwd : Bool
  pub lock_media : Media → Bool
  pub lock_caps : Bool
  pub caps_min_len : ℕ
  pub caps_percent : ℕ
  pub lock_emoji_flood : Bool
  pub emoji_max : ℕ
  pub blacklist : List Text
  pub flood : Bool
  pub flood_time : ℕ
  pub flood_limit : ℕ
  pub flood_action : Action
  pub flood_mute_min : ℕ
  pub lock_profanity : Bool
  pub profanity_action : Action
  pub warnings : Warnings.Settings

-- `text` is the text or the caption.
pub record Message : Type 0 where
  pub chat_id : ℤ
  pub from_user : Option ℕ
  pub sender_chat : Option ℤ
  pub text : Text
  pub forwarded : Bool
  pub is_automatic_forward : Bool
  pub has_media : Media → Bool

-- The outcome of the checks: nothing, a violation, or an exception.
pub data Found : Type 0 where
  clean : Found
  violation : Kind → Found
  raised : Found

-- `_user_msg_log`
abbrev pub MessageLog : Type 0
MessageLog = Dict (ℤ × ℕ) (List ℕ)

unfoldable pub posted_by_channel : Settings → Message → Bool
posted_by_channel s m =
    s.lock_channel && elim m.sender_chat [ none ↦ false | some id ↦ not (int_eq.same id m.chat_id) ]

-- A link that no entry of the whitelist allows.
unfoldable pub has_bad_link : Library → Settings → Text → Bool
unfolding has_part
has_bad_link lib s text =
    s.lock_links
    && not (nat_beq (length text) 0)
    && any (λ frag. not (any (λ w. has_part (lib.lower w) (lib.lower frag)) s.whitelist_links))
        (lib.link_fragments text)

-- The order of `media_locks`.
abbrev pub media_kinds : List Media
media_kinds = sticker ∷ gif ∷ voice ∷ video_note ∷ video ∷ photo ∷ document ∷ contact ∷ poll ∷ []

unfoldable pub locked_media : Settings → Message → List Media → Option Media
locked_media s m [] = none
locked_media s m (k ∷ kinds) =
    let rest = locked_media s m kinds in if s.lock_media k && m.has_media k then some k else rest

-- Too many capitals; none is the division by zero.
unfoldable pub too_many_caps : Library → Settings → Text → Option Bool
too_many_caps lib s text =
    let letters = keep_if lib.is_alpha text in
    if not s.lock_caps || ltb (length letters) s.caps_min_len
    then some false
    else if nat_beq (length letters) 0
    then none
    else some (leb s.caps_percent (length (keep_if lib.is_upper letters) * 100 / length letters))

-- The loop over the blacklist; none is a pattern that is refused.
unfoldable pub on_blacklist : Library → Text → List Text → Option Bool
unfolding has_part
on_blacklist lib text [] = some false
on_blacklist lib text (word ∷ words) =
    let rest = on_blacklist lib text words in
    let w = lib.lower word in
    if nat_beq (length w) 0
    then rest
    else if starts_with w (codes "re:")
    then elim (lib.search (drop 3 w) text) [
      | none ↦ none
      | some hit ↦ if hit then some true else rest
    ]
    else if has_part w (lib.lower text)
    then some true
    else rest

-- The checks of a text that is not empty, after those on media.
unfoldable pub check_text : Library → Settings → Text → Found
unfolding too_many_caps on_blacklist
check_text lib s text = elim (too_many_caps lib s text) [
  | none ↦ raised
  | some true ↦ violation caps
  | some false ↦
      if s.lock_emoji_flood && leb s.emoji_max (lib.emoji_runs text)
      then violation emoji
      else elim (on_blacklist lib text s.blacklist) [
        | none ↦ raised
        | some true ↦ violation blacklist
        | some false ↦ clean
      ]
]

-- All the checks but the last.
unfoldable pub check_content : Library → Settings → Message → Found
unfolding posted_by_channel has_bad_link locked_media check_text
check_content lib s m =
    if posted_by_channel s m
    then violation channel
    else if has_bad_link lib s m.text
    then violation links
    else if s.lock_fwd && m.forwarded && not m.is_automatic_forward
    then violation fwd
    else elim (locked_media s m media_kinds) [
      | some k ↦ violation (media k)
      | none ↦ if nat_beq (length m.text) 0 then clean else check_text lib s m.text
    ]

abbrev pub times_of : ℤ → ℕ → MessageLog → List ℕ
times_of chat_id uid log = elim (get (chat_id, uid) log) [ none ↦ [] | some dq ↦ dq ]

-- The check on floods: the log is emptied when it strikes.
unfoldable pub check_flood : Settings → ℕ → ℤ → ℕ → MessageLog → MessageLog × Found
unfolding drop_old
check_flood s now chat_id uid log =
    let dq =
      drop_old (λ t. t) now (seconds s.flood_time) (times_of chat_id uid log ++ (now ∷ [])) in
    if leb s.flood_limit (length dq)
    then (put (chat_id, uid) [] log, violation flood)
    else (put (chat_id, uid) dq log, clean)

-- `_violations`, for a message of a user.
unfoldable pub violations : Library → Settings → ℕ → ℕ → Message → MessageLog → MessageLog × Found
unfolding check_content check_flood
violations lib s now uid m log = elim (check_content lib s m) [
  | raised ↦ (log, raised)
  | violation k ↦ (log, violation k)
  | clean ↦ if s.flood then check_flood s now m.chat_id uid log else (log, clean)
]

-- `_action_for`: the action and its seconds.
unfoldable pub action_for : Settings → Kind → Action × ℕ
action_for s flood = (s.flood_action, s.flood_mute_min * 60)
action_for s blacklist = (s.profanity_action, 3600)
action_for s _ = (delete, 0)

abbrev pub is_blacklist : Kind → Bool
is_blacklist blacklist = true
is_blacklist _ = false

-- The calls of the client: those of a warning, and a message deleted, a user muted or banned.
pub data Call : Type 0 where
  deleted : Call
  muted : (user_id seconds : ℕ) → Call
  told_mute told_ban banned : (user_id : ℕ) → Call
  warned : List Warnings.Call → Call

-- `punish`: the table of warnings afterwards and the calls, which are taken not to raise.
unfoldable pub punish :
    Bool → Settings → ℤ → ℕ → Action → ℕ → Warnings.Table → Warnings.Table × List Call
unfolding add_warn
punish works s chat_id uid delete dur table = (table, deleted ∷ [])
punish works s chat_id uid mute dur table = (table, muted uid dur ∷ deleted ∷ told_mute uid ∷ [])
punish works s chat_id uid warn dur table =
    let (table', calls) = add_warn works s.warnings chat_id uid table in
    (table', deleted ∷ warned calls ∷ [])
punish works s chat_id uid ban dur table = (table, banned uid ∷ deleted ∷ told_ban uid ∷ [])
punish works s chat_id uid kick dur table = (table, [])

pub record State : Type 0 where
  pub joining : Joining.State
  pub log : MessageLog
  pub warns : Warnings.Table

-- What follows the checks. The setting on profanity chooses between two equal calls.
unfoldable pub follow : Bool → Settings → ℕ → ℤ → State → MessageLog → Found → State × List Call
unfolding action_for punish
follow works s uid chat_id st log clean = (record st { log = log }, [])
follow works s uid chat_id st log raised = (record st { log = log }, [])
follow works s uid chat_id st log (violation k) =
    let (act, dur) =
      if s.lock_profanity && is_blacklist k then action_for s k else action_for s k in
    let (warns, calls) = punish works s chat_id uid act dur st.warns in
    (record st { log = log; warns = warns }, calls)

abbrev pub has_captcha : ℤ → ℕ → State → Bool
has_captcha chat_id uid st = elim (get (chat_id, uid) st.joining.pending_captcha) [
  | none ↦ false
  | some _ ↦ true
]

-- The part of `_on_msg` in its `try`.
unfoldable pub moderate : Library → Bool → Settings → ℕ → ℕ → Message → State → State × List Call
unfolding violations follow
moderate lib works s now uid m st =
    let (log, found) = violations lib s now uid m st.log in
    if ltb now (lock_of m.chat_id st.joining)
    then (st, deleted ∷ [])
    else if s.captcha && has_captcha m.chat_id uid st
    then (st, deleted ∷ [])
    else follow works s uid m.chat_id st log found

-- `_on_msg`: `admin` is the answer of `is_admin`.
unfoldable pub on_msg : Library → Bool → Settings → Bool → ℕ → Message → State → State × List Call
unfolding moderate
on_msg lib works s admin now m st = elim m.from_user [
  | none ↦ (st, [])
  | some uid ↦
      let anonymous : Bool = elim m.sender_chat [
        | none ↦ false
        | some id ↦ int_eq.same id m.chat_id
      ] in
      if not s.enabled || admin || anonymous then (st, []) else moderate lib works s now uid m st
]
