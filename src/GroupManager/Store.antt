-- ===== src/GroupManager/Store.antt =====
-- group_manager.py: the settings of each chat, in a cache over a table, and the panel that changes
-- them. A settings dictionary is stored as it is (the JSON column gives back what was put in).
pub mod Kept
pub mod Saved
pub mod Restart
mod Examples
use add_members.Base.{
  ℕ, Bool, true, false, not, ◌||◌, Option, none, some, List, [], ◌∷◌, map, Text, codes, Dict, get,
  put, take, ℤ, pos, int_eq, text_eq, nat_beq, length, strip, lower, keep_if, starts_with, contains,
  if◌then◌else◌,
}

pub data Value : Type 0 where
  flag : Bool → Value
  num : ℤ → Value
  text : Text → Value
  words : List Text → Value

abbrev pub Settings : Type 0
Settings = Dict Text Value

-- `DEFAULTS`
unfoldable pub defaults : Settings
defaults =
    (codes "enabled", flag true)
    ∷ (codes "welcome", flag true)
    ∷ (codes "welcome_text", text [])
    ∷ (codes "goodbye", flag false)
    ∷ (codes "lock_links", flag true)
    ∷ (codes "lock_fwd", flag false)
    ∷ (codes "lock_sticker", flag false)
    ∷ (codes "lock_gif", flag false)
    ∷ (codes "lock_voice", flag false)
    ∷ (codes "lock_video_note", flag false)
    ∷ (codes "lock_video", flag false)
    ∷ (codes "lock_photo", flag false)
    ∷ (codes "lock_document", flag false)
    ∷ (codes "lock_contact", flag false)
    ∷ (codes "lock_poll", flag false)
    ∷ (codes "lock_channel", flag true)
    ∷ (codes "lock_caps", flag true)
    ∷ (codes "caps_percent", num (pos 70))
    ∷ (codes "caps_min_len", num (pos 12))
    ∷ (codes "lock_emoji_flood", flag false)
    ∷ (codes "emoji_max", num (pos 15))
    ∷ (codes "flood", flag true)
    ∷ (codes "flood_limit", num (pos 6))
    ∷ (codes "flood_time", num (pos 6))
    ∷ (codes "flood_action", text (codes "mute"))
    ∷ (codes "flood_mute_min", num (pos 10))
    ∷ (codes "lock_profanity", flag true)
    ∷ (codes "profanity_action", text (codes "warn"))
    ∷ (codes "warn_limit", num (pos 3))
    ∷ (codes "warn_action", text (codes "mute"))
    ∷ (codes "warn_mute_hours", num (pos 12))
    ∷ (codes "captcha", flag false)
    ∷ (codes "cas_check", flag true)
    ∷ (codes "cas_action", text (codes "ban"))
    ∷ (codes "raid_protection", flag true)
    ∷ (codes "raid_joins", num (pos 6))
    ∷ (codes "raid_window", num (pos 30))
    ∷ (codes "raid_lock_minutes", num (pos 10))
    ∷ (codes "log_chat", num (pos 0))
    ∷ (codes "blacklist", words [])
    ∷ (codes "whitelist_links", words (codes "t.me/" ∷ codes "telegram.me" ∷ []))
    ∷ []

-- `_settings_cache` and the table `mod_settings_tbl`.
pub record Store : Type 0 where
  pub cache : Dict ℤ Settings
  pub table : Dict ℤ Settings

-- Whether a query works, for the two queries.
pub record Database : Type 0 where
  pub loads : Bool
  pub saves : Bool

unfoldable pub db_load_settings : Database → ℤ → Store → Option Settings
db_load_settings db chat_id st = if db.loads then get chat_id st.table else none

unfoldable pub db_save_settings : Database → ℤ → Settings → Store → Store
db_save_settings db chat_id settings st =
    if db.saves then record st { table = put chat_id settings st.table } else st

-- `s.update(saved)`
unfoldable pub update : Settings → Settings → Settings
update s [] = s
update s ((key, value) ∷ saved) = update (put key value s) saved

-- What a chat that is not in the cache gets. Saved settings that are empty count as none.
unfoldable pub loaded : Database → ℤ → Store → Settings
unfolding db_load_settings update
loaded db chat_id st = elim (db_load_settings db chat_id st) [
  | none ↦ defaults
  | some saved ↦ update defaults saved
]

unfoldable pub get_group_settings : Database → ℤ → Store → Store × Settings
unfolding loaded
get_group_settings db chat_id st = elim (get chat_id st.cache) [
  | some s ↦ (st, s)
  | none ↦ (record st { cache = put chat_id (loaded db chat_id st) st.cache }, loaded db chat_id st)
]

unfoldable pub save_group_settings : Database → ℤ → Store → Store
unfolding db_save_settings
save_group_settings db chat_id st =
    db_save_settings db chat_id (elim (get chat_id st.cache) [ none ↦ [] | some s ↦ s ]) st

-- `set_setting`: the dictionary of the cache is changed in place.
unfoldable pub set_setting : Database → ℤ → Text → Value → Store → Store
unfolding get_group_settings save_group_settings
set_setting db chat_id key value st =
    let (st', s) = get_group_settings db chat_id st in
    save_group_settings db chat_id (record st' { cache = put chat_id (put key value s) st'.cache })

-- `not s.get(key)`
abbrev pub is_true : Option Value → Bool
is_true none = false
is_true (some (flag b)) = b
is_true (some (num (pos n))) = not (nat_beq n 0)
is_true (some (num _)) = true
is_true (some (text t)) = not (nat_beq (length t) 0)
is_true (some (words ws)) = not (nat_beq (length ws) 0)

-- What the panel answers.
pub data Answer : Type 0 where
  only_admin unknown switched was_reset ignored : Answer

-- `_cb_toggle`
unfoldable pub cb_toggle : Database → Bool → ℤ → Text → Store → Store × Answer
unfolding set_setting
cb_toggle db admin chat_id key st =
    let (st', s) = get_group_settings db chat_id st in
    if not admin then (st, only_admin) else elim (get key s) [
      | none ↦ (st', unknown)
      | some value ↦ (set_setting db chat_id key (flag (not (is_true (some value)))) st', switched)
    ]

-- `s.get("log_chat", 0)`
abbrev pub old_log : Settings → Value
old_log s = elim (get (codes "log_chat") s) [ none ↦ num (pos 0) | some value ↦ value ]

-- `_cb_reset`: the defaults, with the old log chat.
unfoldable pub cb_reset : Database → Bool → ℤ → Store → Store × Answer
unfolding get_group_settings save_group_settings
cb_reset db admin chat_id st =
    let (st', s) = get_group_settings db chat_id st in
    if not admin then (st, only_admin) else (
      save_group_settings db chat_id (record st' {
        cache = put chat_id (put (codes "log_chat") (old_log s) defaults) st'.cache;
      }),
      was_reset,
    )

-- `_lock` and `_unlock`: `alias` is the table LOCK_ALIAS of names of locks, and `word` the argument
-- of the command in lower case, if it has one.
unfoldable pub lock_command :
    (Text → Option Text) → Bool → Database → Bool → ℤ → Option Text → Store → Store × Answer
unfolding set_setting
lock_command alias locks db admin chat_id word st = if not admin then (st, ignored) else elim word [
  | none ↦ (st, ignored)
  | some w ↦ elim (alias w) [
    | none ↦ (st, unknown)
    | some key ↦ (set_setting db chat_id key (flag locks) st, switched)
  ]
]

abbrev pub awaiting_key : Text
awaiting_key = codes "_awaiting"

-- `_cb_setlog`: `edits` says whether the message of the panel can be edited; if not, the handler ends
-- there. (The entry "setlog" that it puts among the captchas is no setting.)
unfoldable pub cb_setlog : Database → Bool → Bool → ℤ → Store → Store
unfolding set_setting
cb_setlog db admin edits chat_id st =
    if not admin
    then st
    else if not edits
    then st
    else set_setting db chat_id awaiting_key (text (codes "log")) st

-- `_cb_setwelcome`
unfoldable pub cb_setwelcome : Database → Bool → Bool → ℤ → Store → Store
unfolding set_setting
cb_setwelcome db admin edits chat_id st =
    if not admin
    then st
    else if not edits
    then st
    else set_setting db chat_id awaiting_key (text (codes "welcome")) st

-- `_cb_setbl`, which reads the blacklist first.
unfoldable pub cb_setbl : Database → Bool → Bool → ℤ → Store → Store
unfolding get_group_settings set_setting
cb_setbl db admin edits chat_id st =
    let (st', _) = get_group_settings db chat_id st in
    if not admin
    then st
    else if not edits
    then st'
    else set_setting db chat_id awaiting_key (text (codes "bl")) st'

-- `_cancel_await`, for anyone.
unfoldable pub cancel_await : Database → ℤ → Store → Store
unfolding set_setting
cancel_await db chat_id st = set_setting db chat_id awaiting_key (text []) st

-- What `_on_panel_input` takes from Python: `int` and `splitlines`, and whether a message can be
-- sent to the new log chat.
pub record Input : Type 0 where
  pub int_of : Text → Option ℤ
  pub splitlines : Text → List Text
  pub off_words : List Text
  pub sends : ℤ → Bool

-- A value is set, and nothing is awaited any more.
abbrev pub take_input : Database → ℤ → Text → Value → Store → Store
take_input db chat_id key value st =
    set_setting db chat_id awaiting_key (text []) (set_setting db chat_id key value st)

unfoldable pub input_log : Input → Database → ℤ → Text → Store → Store
unfolding set_setting strip lower
input_log env db chat_id arg st =
    if contains (lower (strip arg)) env.off_words
    then take_input db chat_id (codes "log_chat") (num (pos 0)) st
    else elim (env.int_of (strip arg)) [
      | none ↦ st
      | some cid ↦
          if env.sends cid then take_input db chat_id (codes "log_chat") (num cid) st else st
    ]

-- `_on_panel_input`, for a text message of a user.
unfoldable pub on_panel_input : Input → Database → Bool → ℤ → Text → Store → Store
unfolding get_group_settings set_setting input_log strip
on_panel_input env db admin chat_id m st =
    let (st', s) = get_group_settings db chat_id st in
    let lines = keep_if (λ w. not (nat_beq (length w) 0)) (map strip (env.splitlines m)) in
    if not admin then st else if starts_with m (codes "/") then st' else elim (get awaiting_key s) [
      | some (text what) ↦
          if text_eq.same what (codes "log")
          then input_log env db chat_id m st'
          else if text_eq.same what (codes "welcome")
          then take_input db chat_id (codes "welcome_text") (text (take 800 m)) st'
          else if text_eq.same what (codes "bl")
          then take_input db chat_id (codes "blacklist") (words (take 100 lines)) st'
          else st'
      | _ ↦ st'
    ]
