-- ===== src/GroupManager/Store/Restart.antt =====
-- group_manager.py: the settings after a restart, when the cache is empty and the table is left.
use add_members.Base.{
  ◌≡◌, refl, sym, subst, Bool, true, false, not, Option, none, some, List, [], ◌∷◌, Text, text_eq,
  codes, Dict, get, put, ℤ, int_eq, if◌then◌else◌, arith, Option-cases, inl, inr, contains, pos,
  strip, lower, starts_with, take,
}
use add_members.GroupManager.Store.{
  Value, flag, Settings, defaults, Store, Input, get_group_settings, set_setting, cb_toggle,
  cb_reset, cb_setlog, cb_setwelcome, cb_setbl, cancel_await, lock_command, on_panel_input,
  input_log, is_true, old_log, take_input, awaiting_key, text, words, num,
}
use add_members.GroupManager.Store.Kept.{
  setting, settings_of, get_group_settings_settings, replaced-get_group_settings,
}
use add_members.GroupManager.Store.Saved.{
  works, put-IsWhole, defaults-IsWhole, loaded-get, IsSaved, replaced-IsSaved,
  get_group_settings-IsSaved, set_setting-IsSaved,
}

cb_toggle-IsSaved :
    (admin : Bool) (chat_id : ℤ) (key : Text) (st : Store)
    → IsSaved st
    → IsSaved (cb_toggle works admin chat_id key st).0
unfolding cb_toggle
cb_toggle-IsSaved false chat_id key st ok = ok
cb_toggle-IsSaved true chat_id key st ok =
    elim (Option-cases (get key (get_group_settings works chat_id st).1)) [
      | inl e ↦ rw (cb_toggle, e) (get_group_settings-IsSaved chat_id st ok).0
      | inr (v, e) ↦
          rw (cb_toggle, e)
            (set_setting-IsSaved chat_id key (flag (not (is_true (some v))))
              (get_group_settings works chat_id st).0 (get_group_settings-IsSaved chat_id st ok).0)
    ]

cb_reset-IsSaved :
    (admin : Bool) (chat_id : ℤ) (st : Store)
    → IsSaved st
    → IsSaved (cb_reset works admin chat_id st).0
unfolding cb_reset
cb_reset-IsSaved false chat_id st ok = ok
cb_reset-IsSaved true chat_id st ok =
    let keep = old_log (get_group_settings works chat_id st).1 in
    let s = put (codes "log_chat") keep defaults in
    subst IsSaved (sym (replaced-get_group_settings works chat_id s st)) (
      replaced-IsSaved chat_id s st ok
        (put-IsWhole (codes "log_chat") keep defaults defaults-IsWhole))

lock_command-IsSaved :
    (alias : Text → Option Text) (locks admin : Bool) (chat_id : ℤ) (word : Option Text)
    (st : Store)
    → IsSaved st
    → IsSaved (lock_command alias locks works admin chat_id word st).0
unfolding lock_command
lock_command-IsSaved alias locks false chat_id word st ok = ok
lock_command-IsSaved alias locks true chat_id none st ok = ok
lock_command-IsSaved alias locks true chat_id (some w) st ok = elim (Option-cases (alias w)) [
  | inl e ↦ rw (lock_command, e) ok
  | inr (key, e) ↦ rw (lock_command, e) (set_setting-IsSaved chat_id key (flag locks) st ok)
]

take_input-IsSaved :
    (chat_id : ℤ) (key : Text) (value : Value) (st : Store)
    → IsSaved st
    → IsSaved (take_input works chat_id key value st)
take_input-IsSaved chat_id key value st ok =
    set_setting-IsSaved chat_id awaiting_key (text []) (set_setting works chat_id key value st)
      (set_setting-IsSaved chat_id key value st ok)

-- Both branches of a test are good.
if_both : {A : Type 0} (P : A → Type 0) (b : Bool) {x y : A} → P x → P y → P (if b then x else y)
if_both P true p q = p
if_both P false p q = q

input_log-IsSaved :
    (env : Input) (chat_id : ℤ) (arg : Text) (st : Store)
    → IsSaved st
    → IsSaved (input_log env works chat_id arg st)
unfolding input_log
input_log-IsSaved env chat_id arg st ok =
    if_both IsSaved (contains (lower (strip arg)) env.off_words)
      (take_input-IsSaved chat_id (codes "log_chat") (num (pos 0)) st ok)
      (elim (Option-cases (env.int_of (strip arg))) [
        | inl e ↦ rw e ok
        | inr (cid, e) ↦ rw e (
            if_both IsSaved (env.sends cid)
              (take_input-IsSaved chat_id (codes "log_chat") (num cid) st ok) ok)
      ])

on_panel_input-IsSaved :
    (env : Input) (admin : Bool) (chat_id : ℤ) (m : Text) (st : Store)
    → IsSaved st
    → IsSaved (on_panel_input env works admin chat_id m st)
unfolding on_panel_input
on_panel_input-IsSaved env false chat_id m st ok = ok
on_panel_input-IsSaved env true chat_id m st ok =
    let (saved, _) = get_group_settings-IsSaved chat_id st ok in
    let st' = (get_group_settings works chat_id st).0 in
    if_both IsSaved (starts_with m (codes "/")) saved
      (elim (Option-cases (get awaiting_key (get_group_settings works chat_id st).1)) [
        | inl e ↦ rw e saved
        | inr (text what, e) ↦ rw e (
            if_both IsSaved (text_eq.same what (codes "log"))
              (input_log-IsSaved env chat_id m st' saved)
              (if_both IsSaved (text_eq.same what (codes "welcome"))
                (take_input-IsSaved chat_id (codes "welcome_text") (text (take 800 m)) st' saved)
                (if_both IsSaved (text_eq.same what (codes "bl"))
                  (take_input-IsSaved chat_id (codes "blacklist") _ st' saved) saved)))
        | inr (flag _, e) ↦ rw e saved
        | inr (num _, e) ↦ rw e saved
        | inr (words _, e) ↦ rw e saved
      ])

cb_setlog-IsSaved :
    (admin edits : Bool) (chat_id : ℤ) (st : Store)
    → IsSaved st
    → IsSaved (cb_setlog works admin edits chat_id st)
unfolding cb_setlog
cb_setlog-IsSaved false edits chat_id st ok = ok
cb_setlog-IsSaved true false chat_id st ok = ok
cb_setlog-IsSaved true true chat_id st ok = set_setting-IsSaved chat_id awaiting_key _ st ok

cb_setwelcome-IsSaved :
    (admin edits : Bool) (chat_id : ℤ) (st : Store)
    → IsSaved st
    → IsSaved (cb_setwelcome works admin edits chat_id st)
unfolding cb_setwelcome
cb_setwelcome-IsSaved false edits chat_id st ok = ok
cb_setwelcome-IsSaved true false chat_id st ok = ok
cb_setwelcome-IsSaved true true chat_id st ok = set_setting-IsSaved chat_id awaiting_key _ st ok

cb_setbl-IsSaved :
    (admin edits : Bool) (chat_id : ℤ) (st : Store)
    → IsSaved st
    → IsSaved (cb_setbl works admin edits chat_id st)
unfolding cb_setbl
cb_setbl-IsSaved false edits chat_id st ok = ok
cb_setbl-IsSaved true false chat_id st ok = (get_group_settings-IsSaved chat_id st ok).0
cb_setbl-IsSaved true true chat_id st ok =
    set_setting-IsSaved chat_id awaiting_key _ (get_group_settings works chat_id st).0
      (get_group_settings-IsSaved chat_id st ok).0

-- What the handlers do to the settings, one step for each.
pub data Step : Type 0 where
  reads : ℤ → Step
  toggles : (admin : Bool) → ℤ → Text → Step
  resets : (admin : Bool) → ℤ → Step
  locks : (alias : Text → Option Text) (on admin : Bool) → ℤ → Option Text → Step
  asks_log asks_welcome asks_bl : (admin edits : Bool) → ℤ → Step
  cancels : ℤ → Step
  inputs : Input → (admin : Bool) → ℤ → Text → Step

abbrev pub step : Step → Store → Store
step (reads chat_id) st = (get_group_settings works chat_id st).0
step (toggles admin chat_id key) st = (cb_toggle works admin chat_id key st).0
step (resets admin chat_id) st = (cb_reset works admin chat_id st).0
step (locks alias on admin chat_id word) st = (lock_command alias on works admin chat_id word st).0
step (asks_log admin edits chat_id) st = cb_setlog works admin edits chat_id st
step (asks_welcome admin edits chat_id) st = cb_setwelcome works admin edits chat_id st
step (asks_bl admin edits chat_id) st = cb_setbl works admin edits chat_id st
step (cancels chat_id) st = cancel_await works chat_id st
step (inputs env admin chat_id m) st = on_panel_input env works admin chat_id m st

step-IsSaved : (a : Step) (st : Store) → IsSaved st → IsSaved (step a st)
unfolding cancel_await
step-IsSaved (reads chat_id) st ok = (get_group_settings-IsSaved chat_id st ok).0
step-IsSaved (toggles admin chat_id key) st ok = cb_toggle-IsSaved admin chat_id key st ok
step-IsSaved (resets admin chat_id) st ok = cb_reset-IsSaved admin chat_id st ok
step-IsSaved (locks alias on admin chat_id word) st ok =
    lock_command-IsSaved alias on admin chat_id word st ok
step-IsSaved (asks_log admin edits chat_id) st ok = cb_setlog-IsSaved admin edits chat_id st ok
step-IsSaved (asks_welcome admin edits chat_id) st ok =
    cb_setwelcome-IsSaved admin edits chat_id st ok
step-IsSaved (asks_bl admin edits chat_id) st ok = cb_setbl-IsSaved admin edits chat_id st ok
step-IsSaved (cancels chat_id) st ok = set_setting-IsSaved chat_id awaiting_key (text []) st ok
step-IsSaved (inputs env admin chat_id m) st ok = on_panel_input-IsSaved env admin chat_id m st ok

abbrev pub run : List Step → Store → Store
run [] st = st
run (a ∷ steps) st = run steps (step a st)

run-IsSaved : (steps : List Step) (st : Store) → IsSaved st → IsSaved (run steps st)
run-IsSaved [] st ok = ok
run-IsSaved (a ∷ steps) st ok = run-IsSaved steps (step a st) (step-IsSaved a st ok)

-- The process starts with an empty cache.
abbrev pub started : Dict ℤ Settings → Store
started table = record { cache = []; table = table }

setting-restarted :
    (st : Store) (c : ℤ) (k : Text)
    → IsSaved st
    → setting works (started st.table) c k ≡ setting works st c k
setting-restarted st c k ok =
    rw
      (
        get_group_settings_settings works c st,
        get_group_settings_settings works c (started st.table),
        loaded-get c (started st.table),
      )
      (elim (Option-cases (get c st.cache)) [
        | inl e ↦ rw (settings_of, e, loaded-get c st) refl
        | inr (s, e) ↦ rw (settings_of, e) ((ok c s e).1 k)
      ])

-- A restart loses no setting. From a start with any saved table, and after any run of the handlers
-- that change settings (the buttons that switch, reset and ask for an input, the lock commands, the
-- inputs of the panel and the commands that cancel them), with a database whose queries work, every
-- chat reads for every key after a restart what it read before.
pub run-restarted :
    (steps : List Step) (table : Dict ℤ Settings) (c : ℤ) (k : Text)
    → setting works (started (run steps (started table)).table) c k
      ≡ setting works (run steps (started table)) c k
run-restarted steps table c k =
    setting-restarted (run steps (started table)) c k
      (run-IsSaved steps (started table) (λ _ _ e. ground (arith, e)))
