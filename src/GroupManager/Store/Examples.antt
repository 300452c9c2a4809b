-- ===== src/GroupManager/Store/Examples.antt =====
-- Tests and instances of the theorems.
use add_members.Base.{
  ◌≡◌, refl, inr, false, true, false, some, List, [], ◌∷◌, codes, ℤ, negsuc, int_eq, text_eq, Text,
  ◌&&◌, if◌then◌else◌,
}
use add_members.GroupManager.Store.{
  flag, Database, set_setting, get_group_settings, loaded, update, defaults, db_load_settings,
  db_save_settings, save_group_settings, cb_toggle, cb_setlog, cancel_await,
}
use add_members.GroupManager.Store.Kept.{setting, set_setting-setting}
use add_members.GroupManager.Store.Restart.{
  Step, toggles, asks_log, cancels, run, started, run-restarted,
}
use add_members.GroupManager.Store.Saved.{works}

-- The save fails.
abbrev no_save : Database
no_save = record { loads = true; saves = false }

abbrev group : ℤ
group = negsuc 99

abbrev captcha : Text
captcha = codes "captcha"

-- Nothing works.
abbrev no_load : Database
no_load = record { loads = false; saves = false }

set_setting-setting_example :
    setting no_load (set_setting no_save group captcha (flag true) (started [])) group captcha ≡ (
      if int_eq.same group group && text_eq.same captcha captcha
      then some (flag true)
      else setting works (started []) group captcha)
set_setting-setting_example =
    set_setting-setting works no_save no_load group group captcha captcha (flag true) (started [])
      (inr refl) (inr refl) (λ other. absurd (other refl))

abbrev presses : List Step
presses =
    toggles true group captcha
    ∷ asks_log true true group
    ∷ cancels group
    ∷ toggles false group (codes "welcome")
    ∷ []

read_back : setting works (run presses (started [])) group captcha ≡ some (flag true)
unfolding cb_toggle cb_setlog cancel_await defaults set_setting get_group_settings loaded update
    db_load_settings db_save_settings save_group_settings
read_back = refl

run-restarted_example :
    setting works (started (run presses (started [])).table) group captcha
    ≡ setting works (run presses (started [])) group captcha
run-restarted_example = run-restarted presses [] group captcha
