-- ===== src/GroupManager/Messages/Examples.antt =====
-- Tests and instances of the theorems.
use add_members.Base.{
  ℕ, ◌≡◌, ◌≢◌, ◌≤◌, ◌<◌, ◌⊎◌, refl, true, false, ◌&&◌, none, some, [], ◌∷◌, codes, ℤ, negsuc,
  int_eq, nat_eq, pair_eq, get, leb, length, seconds, any, arith, starts_with, if◌then◌else◌,
}
use add_members.GroupManager.Warnings
use add_members.GroupManager.Messages.{
  Library, Settings, Message, State, MessageLog, clean, violation, flood, ban, mute, times_of,
  check_flood, on_msg, deleted, banned, told_ban,
}
use add_members.GroupManager.Messages.Floods
use add_members.GroupManager.Messages.Gate

abbrev chat : ℤ
chat = negsuc 99

-- A library that finds no links and no emoji.
abbrev plain : Library
plain = record {
  link_fragments = λ t. [];
  emoji_runs = λ t. 0;
  search = λ p t. some (starts_with t p);
  lower = λ t. t;
  is_alpha = λ c. leb 65 c;
  is_upper = λ c. leb 65 c && leb c 90;
}

abbrev settings : Settings
settings = record {
  enabled = true;
  captcha = false;
  lock_channel = true;
  lock_links = true;
  whitelist_links = [];
  lock_fwd = false;
  lock_media = λ k. false;
  lock_caps = true;
  caps_min_len = 12;
  caps_percent = 70;
  lock_emoji_flood = false;
  emoji_max = 15;
  blacklist = codes "spam" ∷ [];
  flood = true;
  flood_time = 6;
  flood_limit = 2;
  flood_action = mute;
  flood_mute_min = 10;
  lock_profanity = true;
  profanity_action = ban;
  warnings = record { warn_limit = 3; warn_action = Warnings.mute; warn_mute_hours = 12 };
}

abbrev spam : Message
spam = record {
  chat_id = chat;
  from_user = some 7;
  sender_chat = none;
  text = codes "buy spam";
  forwarded = false;
  is_automatic_forward = false;
  has_media = λ k. false;
}

abbrev calm : State
calm = record {
  joining = record { join_log = []; raid_lock_until = []; pending_captcha = []; kicks = [] };
  log = [];
  warns = [];
}

spam_banned :
    (on_msg plain true settings false 5 spam calm).1 ≡ banned 7 ∷ deleted ∷ told_ban 7 ∷ []
unfolding on_msg
spam_banned = refl

shouting :
    (on_msg plain true settings false 5 (record spam { text = codes "WE ALL SHOUT HERE" }) calm).1
    ≡ deleted ∷ []
unfolding on_msg
shouting = refl

abbrev wrote : MessageLog
wrote = ((chat, 7), seconds 90 ∷ seconds 97 ∷ []) ∷ []

check_flood-recent_times_example :
    ((check_flood settings (seconds 100) chat 7 wrote).1 ≡ (
      if leb 2 (length (Floods.recent_times settings (seconds 100) chat 7 wrote))
      then violation flood
      else clean))
    × (times_of chat 7 (check_flood settings (seconds 100) chat 7 wrote).0 ≡ (
        if leb 2 (length (Floods.recent_times settings (seconds 100) chat 7 wrote))
        then []
        else Floods.recent_times settings (seconds 100) chat 7 wrote))
    × (1 ≤ settings.flood_limit
        → length (times_of chat 7 (check_flood settings (seconds 100) chat 7 wrote).0)
          < settings.flood_limit)
    × ((other : ℤ × ℕ)
        → other ≢ (chat, 7)
        → get other (check_flood settings (seconds 100) chat 7 wrote).0 ≡ get other wrote)
check_flood-recent_times_example =
    Floods.check_flood-recent_times settings (seconds 100) chat 7 wrote (omega arith) (omega arith)

on_msg-harsh_example :
    (any Gate.is_ban (on_msg plain true settings false 5 spam calm).1 ≡ true
      → (false ≡ false)
        × (settings.enabled ≡ true)
        × (Gate.MayBan settings settings.flood_action
            ⊎ Gate.MayBan settings settings.profanity_action))
    × (any Gate.is_mute (on_msg plain true settings false 5 spam calm).1 ≡ true
        → (false ≡ false)
          × (settings.enabled ≡ true)
          × (Gate.MayMute settings settings.flood_action
              ⊎ Gate.MayMute settings settings.profanity_action))
on_msg-harsh_example = Gate.on_msg-harsh plain true settings false 5 spam calm

-- The chat is locked until second 700.
abbrev raided : State
raided = record calm {
  joining = record {
    join_log = [];
    raid_lock_until = (chat, seconds 700) ∷ [];
    pending_captcha = [];
    kicks = [];
  };
}
