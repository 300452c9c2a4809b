-- ===== src/Defender/Examples.antt =====
-- Tests and instances of the theorems.
use add_members.Base.{
  ◌≡◌, ◌≤◌, ◌⊎◌, refl, true, false, List, [], ◌∷◌, Text, codes, length, All, contains, nat_eq,
  text_eq, leb, ◌&&◌, lower, arith,
}
use add_members.Defender.{
  State, banned, unbanned, restricted, alerted, asked, Joiner, Outside, timeout, Library, Message,
  on_join, captcha_ends, score_of, invisible_link,
}
use add_members.Defender.Causes.{
  Event, joins, ends, leaves, plants, step, is_banned, Cause, step-is_banned,
}
use add_members.Defender.Bans.{calls_of_run, Spares, calls_of_run-Spares}
use add_members.Defender.Traps.{run, run-active_traps}

abbrev fresh : State
fresh = record {
  user_join_times = [];
  banned_scrapers = [];
  pending_captcha = [];
  user_risk_score = [];
  last_activity = [];
  captcha_codes = [];
  active_traps = [];
}

abbrev fine : Outside
fine = record { bans = true; sends = true; phrase = codes "7" }

abbrev member : Joiner
member = record { user_id = 7; is_bot = false; is_self = false; date = 0 }

-- The member joins, does not answer, joins again and does not answer again.
abbrev joined_once : List Event
joined_once = joins fine 5 false member ∷ ends true 7 timeout ∷ []

banned_once :
    calls_of_run joined_once fresh
    ≡ restricted 7 false ∷ asked 7 ∷ banned 7 ∷ unbanned 7 ∷ alerted ∷ []
unfolding on_join captcha_ends
banned_once = refl

not_again :
    calls_of_run joined_once (run joined_once fresh) ≡ restricted 7 false ∷ asked 7 ∷ alerted ∷ []
unfolding on_join captcha_ends
not_again = refl

is_banned-run : is_banned 7 (run joined_once fresh) ≡ true
unfolding on_join captcha_ends
is_banned-run = refl

calls_of_run-Spares_example : All (Spares 7) (calls_of_run joined_once (run joined_once fresh))
calls_of_run-Spares_example =
    calls_of_run-Spares joined_once 7 (run joined_once fresh) is_banned-run

is_banned-timeout : is_banned 7 (step (ends true 7 timeout) fresh) ≡ true
unfolding captcha_ends
is_banned-timeout = refl

step-is_banned_example : (is_banned 7 fresh ≡ true) ⊎ Cause (ends true 7 timeout) fresh 7
step-is_banned_example = step-is_banned (ends true 7 timeout) 7 fresh is_banned-timeout

abbrev first_of : List Text → Text
first_of [] = []
first_of (t ∷ traps) = t

abbrev plans : List Event
plans = plants invisible_link (codes "hp_trap_1") first_of ∷ leaves true 9 7 ∷ []

pops_first : (x : Text) (traps : List Text) → contains (first_of (x ∷ traps)) (x ∷ traps) ≡ true
pops_first x traps = ground (arith, text_eq.same_iff x x)

run-active_traps_example : length (run plans fresh).active_traps ≤ 50
run-active_traps_example = run-active_traps plans fresh (pops_first, (tt, tt)) (omega arith)

abbrev ascii : Library
ascii = record { is_digit = λ c. leb 48 c && leb c 57; lower = lower }

abbrev official : Message
official = record {
  user_id = 9;
  text = codes "hello";
  first_name = codes "Admin";
  last_name = codes "team";
  username = codes "Support_bot";
}

suspicious : score_of ascii official ≡ 8
unfolding score_of lower
suspicious = refl
