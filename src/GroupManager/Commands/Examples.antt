-- ===== src/GroupManager/Commands/Examples.antt =====
-- Tests and instances of the theorems.
use add_members.Base.{
  ℕ, ℤ, get, int_eq, nat_eq, pair_eq, ◌≡◌, refl, true, false, none, some, [], ◌∷◌, codes, pos,
  negsuc, nat_beq, All, is_ascii_digit,
}
use add_members.GroupManager.Warnings
use add_members.GroupManager.Warnings.{mute}
use add_members.GroupManager.Commands.{Message, Outside, banned, deleted, ban, purge}
use add_members.GroupManager.Commands.Targets.{Aims, IsOther, run-target}
use add_members.GroupManager.Commands.Allowed.{
  ban_command, purge_command, run, may, IsMild, warn_command,
}

-- User 1 is an admin.
abbrev outside : Outside
outside = record {
  texts = record { is_digit = is_ascii_digit; int_of = λ _. none };
  times = record { digit = λ _. none; int_of = λ _. some (pos 60) };
  user_by_id = λ _. none;
  user_by_name = λ _. some 7;
  is_admin = λ uid. nat_beq uid 1;
  works = true;
  saves = true;
}

abbrev message : Message
message = record {
  chat_id = negsuc 99;
  message_id = 12;
  from_user = 1;
  reply = none;
  args = codes "@spammer" ∷ codes "60" ∷ [];
}

timed_ban : ban outside message ≡ banned 7 (some 60) ∷ []
unfolding ban is_ascii_digit
timed_ban = refl

-- In an answer to a message the duration is the first argument, and is not read.
ban_reply :
    ban outside (record message { reply = some (3, some 8); args = codes "60" ∷ [] })
    ≡ banned 8 none ∷ []
unfolding ban is_ascii_digit
ban_reply = refl

purge_reply :
    purge outside (record message { reply = some (10, none) }) ≡ deleted (10 ∷ 11 ∷ 12 ∷ []) ∷ []
unfolding purge
purge_reply = refl

abbrev strict : Warnings.Settings
strict = record { warn_limit = 3; warn_action = mute; warn_mute_hours = 12 }

run-target_example :
    All (Aims outside 5 strict message) (run outside 5 strict message warn_command []).1
    × ((key : ℤ × ℕ)
        → IsOther outside 5 strict message key
        → get key (run outside 5 strict message warn_command []).0 ≡ get key [])
    × (may outside 5 strict message warn_command ≡ false
        → run outside 5 strict message warn_command [] ≡ ([], []))
    × All (IsMild outside 5 strict message) (run outside 5 strict message ban_command []).1
    × All (IsMild outside 5 strict message) (run outside 5 strict message purge_command []).1
run-target_example = run-target outside 5 strict message warn_command []
