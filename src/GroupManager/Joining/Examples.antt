-- ===== src/GroupManager/Joining/Examples.antt =====
-- Tests and instances of the theorems.
use add_members.Base.{
  ℕ, ◌+◌, ◌*◌, ◌≡◌, ◌↔◌, ◌<◌, refl, true, false, ◌&&◌, none, some, List, [], ◌∷◌, codes, ℤ, negsuc,
  int_eq, nat_eq, pair_eq, nat_beq, leb, length, seconds, arith,
}
use add_members.GroupManager.Joining.{
  Settings, State, Outside, Captcha, Kick, locked_chat, told_raid, asked_captcha, restricted,
  banned, unbanned, told_late, log_of, lock_of, detect_raid, ask_captcha, handle_new_member,
  handle_leave, kick_later, on_captcha, captcha_ttl, verified, late,
}
use add_members.GroupManager.Joining.Raids
use add_members.GroupManager.Joining.Captchas
use add_members.GroupManager.Joining.Locked
use add_members.GroupManager.Joining.Locked.{Event, run, locks_again}
use add_members.GroupManager.Window.{drop_old}

abbrev chat : ℤ
chat = negsuc 99

abbrev settings : Settings
settings = record {
  raid_protection = true;
  raid_window = 30;
  raid_joins = 3;
  raid_lock_minutes = 10;
  cas_check = true;
  cas_bans = true;
  captcha = true;
  welcome = true;
  goodbye = false;
}

abbrev at : ℕ → Outside
at t = record { now = seconds t; cas_listed = false; replies = true; token = codes "abcd1234" }

abbrev empty : State
empty = record { join_log = []; raid_lock_until = []; pending_captcha = []; kicks = [] }

-- Two members joined, 40 and 10 seconds ago.
abbrev joined : State
joined = record empty { join_log = (chat, (seconds 60, 5) ∷ (seconds 90, 6) ∷ []) ∷ [] }

-- The third member of one message raises the alarm, and the fourth is not looked at.
three_joins :
    (handle_new_member settings chat 1 ((7, at 100) ∷ (8, at 100) ∷ (9, at 100) ∷ []) joined).1
    ≡ restricted 7 ∷ asked_captcha 7 ∷ locked_chat ∷ told_raid ∷ []
unfolding handle_new_member
three_joins = refl

detect_raid-recent_joins_example :
    ((detect_raid settings chat (seconds 100) 7 joined).1
      ≡ nat_beq (lock_of chat joined) 0
        && leb 3 (length (Raids.recent_joins settings chat (seconds 100) 7 joined)))
    × (log_of chat (detect_raid settings chat (seconds 100) 7 joined).0
        ≡ Raids.recent_joins settings chat (seconds 100) 7 joined)
    × Raids.IsLog (seconds 100) (log_of chat (detect_raid settings chat (seconds 100) 7 joined).0)
detect_raid-recent_joins_example =
    Raids.detect_raid-recent_joins settings chat (seconds 100) 7 joined (omega arith)

raided : (detect_raid settings chat (seconds 90) 7 joined).1 ≡ true
unfolding detect_raid drop_old
raided = refl

abbrev raiders : List (ℕ × Outside)
raiders = (7, at 3700) ∷ (8, at 3700) ∷ (9, at 3700) ∷ (10, at 3700) ∷ []

-- A raid at second 90, and what comes after it.
abbrev after_raid : List Event
after_raid =
    Event.joins settings chat 1 raiders
    ∷ Event.unlocks false true chat
    ∷ Event.leaves settings chat 1 7
    ∷ []

run-locked_example :
    (lock_of chat (run after_raid (detect_raid settings chat (seconds 90) 7 joined).0)
      ≡ seconds 90 + seconds (10 * 60))
    × (locks_again chat after_raid (detect_raid settings chat (seconds 90) 7 joined).0 ≡ false)
run-locked_example =
    Locked.run-locked settings chat (seconds 90) 7 joined after_raid (omega arith) raided
      (tt, (refl, (tt, tt)))

on_captcha-verified_example :
    ((on_captcha chat 7 (codes "abcd1234") 7 (ask_captcha (at 100) chat 7 empty).0).2 ≡ verified)
    ↔ ((pend : Captcha) × (Captchas.pending chat 7 (ask_captcha (at 100) chat 7 empty).0
          ≡ some pend)
        × (pend.token ≡ codes "abcd1234")
        × (◌≡◌ {A = ℕ} 7 7))
on_captcha-verified_example =
    Captchas.on_captcha-verified chat 7 (codes "abcd1234") 7 (ask_captcha (at 100) chat 7 empty).0

wrong_token : (on_captcha chat 7 (codes "zzzz") 7 (ask_captcha (at 100) chat 7 empty).0).2 ≡ late
unfolding on_captcha ask_captcha
wrong_token = refl

kick_later-rejoined_example :
    let kick : Kick = Captchas.kick_of (at 100) chat 7 in
    let left = (handle_leave settings chat 1 7 (ask_captcha (at 100) chat 7 empty).0).0 in
    let again = (ask_captcha (at 250) chat 7 left).0 in
    (Captchas.pending chat 7 left ≡ none)
    × Captchas.Sleeps kick again
    × (((at 250).now < kick.due) × (kick.due < (at 250).now + captcha_ttl))
    × (Captchas.pending chat 7 again ≡ some (record { token = (at 250).token; at = (at 250).now }))
    × ((kick_later kick again).1 ≡ banned 7 ∷ unbanned 7 ∷ told_late 7 ∷ [])
    × (Captchas.pending chat 7 (kick_later kick again).0 ≡ none)
kick_later-rejoined_example =
    Captchas.kick_later-rejoined settings (at 100) (at 250) chat 1 7 empty refl (omega arith)
      (omega arith)
