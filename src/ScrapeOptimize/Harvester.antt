-- ===== src/ScrapeOptimize/Harvester.antt =====
-- scrape_optimize.py, `MessageHarvester`: everyone a message shows, in one pass.
-- The sink is a callback of the caller: `sunk` lists its calls, newest first. A set is a list. The
-- ids are natural numbers, and a user without an id has the id 0, which is false in Python too.
pub mod Once
pub mod Everyone
mod Examples
use add_members.Base.{
  ℕ, zero, suc, ◌+◌, Bool, true, false, not, ◌||◌, Option, none, some, List, [], ◌∷◌, ◌++◌, Text,
  Dict, get, put, codes, contains, nat_eq, nat_beq, text_eq, if◌then◌else◌,
}

pub record User : Type 0 where
  pub id : ℕ
  pub is_bot : Bool
  pub is_deleted : Bool

-- `reply_to_message`
pub record Reply : Type 0 where
  pub from_user : Option User
  pub forward_from : Option User

-- The types of the entities that are wanted, and all the others.
pub data EntityType : Type 0 where
  mention text_mention other : EntityType

pub record Entity : Type 0 where
  pub type : EntityType
  pub user : Option User

-- `reactions` and `poll` say whether the message has some.
pub record Message : Type 0 where
  pub id : ℕ
  pub from_user : Option User
  pub forward_from : Option User
  pub reply_to_message : Option Reply
  pub new_chat_members : List User
  pub entities : List Entity
  pub reactions : Bool
  pub poll : Bool

pub record Harvester : Type 0 where
  pub existing : List ℕ
  pub messages_seen : ℕ
  pub reaction_msg_ids : List ℕ
  pub poll_msg_ids : List ℕ
  pub counts : Dict Text ℕ
  pub seen_users : List ℕ
  pub sunk : List (User × Text)

-- `__init__`
abbrev pub new : List ℕ → Harvester
new existing = record {
  existing = existing;
  messages_seen = 0;
  reaction_msg_ids = [];
  poll_msg_ids = [];
  counts = [];
  seen_users = [];
  sunk = [];
}

-- `self.counts.get(source, 0)`
abbrev pub count_of : Text → Dict Text ℕ → ℕ
count_of source counts = elim (get source counts) [ none ↦ 0 | some n ↦ n ]

-- `_take`
unfoldable pub take_user : User → Text → Harvester → Harvester × Bool
take_user user source h =
    if nat_beq user.id 0 || contains user.id h.seen_users || contains user.id h.existing
    then (h, false)
    else if user.is_bot || user.is_deleted
    then (h, false)
    else (
      record h {
        seen_users = user.id ∷ h.seen_users;
        counts = put source (count_of source h.counts + 1) h.counts;
      },
      true,
    )

-- `if self._take(user, source): await self.sink(user, source); found += 1`
unfoldable pub offer : Text → User → Harvester × ℕ → Harvester × ℕ
unfolding take_user
offer source user (h, found) =
    let (h', taken) = take_user user source h in
    if taken then (record h' { sunk = (user, source) ∷ h'.sunk }, found + 1) else (h', found)

unfoldable pub offer_option : Text → Option User → Harvester × ℕ → Harvester × ℕ
unfolding offer
offer_option source none s = s
offer_option source (some user) s = offer source user s

unfoldable pub offer_reply : Option Reply → Harvester × ℕ → Harvester × ℕ
unfolding offer_option
offer_reply none s = s
offer_reply (some rep) s =
    offer_option (codes "reply_fwd") rep.forward_from (offer_option (codes "reply") rep.from_user s)

-- The loop over `new_chat_members`.
unfoldable pub offer_joined : List User → Harvester × ℕ → Harvester × ℕ
unfolding offer
offer_joined [] s = s
offer_joined (user ∷ users) s = offer_joined users (offer (codes "join") user s)

abbrev pub is_wanted : EntityType → Bool
is_wanted mention = true
is_wanted text_mention = true
is_wanted other = false

-- The user of an entity, if it is to be offered.
abbrev pub wanted_user : Entity → Option User
wanted_user ent = if is_wanted ent.type then ent.user else none

-- The loop over `entities`.
unfoldable pub offer_entities : List Entity → Harvester × ℕ → Harvester × ℕ
unfolding offer_option
offer_entities [] s = s
offer_entities (ent ∷ entities) s =
    offer_entities entities (offer_option (codes "mention") (wanted_user ent) s)

abbrev pub note_reactions : Message → Harvester → Harvester
note_reactions msg h =
    if msg.reactions then record h { reaction_msg_ids = h.reaction_msg_ids ++ (msg.id ∷ []) } else h

abbrev pub note_poll : Message → Harvester → Harvester
note_poll msg h =
    if msg.poll then record h { poll_msg_ids = h.poll_msg_ids ++ (msg.id ∷ []) } else h

-- The users of a message, before its reactions and its poll are noted.
unfoldable pub offer_message : Message → Harvester × ℕ → Harvester × ℕ
unfolding offer_option offer_reply offer_joined offer_entities
offer_message msg s = offer_entities msg.entities (
    offer_joined msg.new_chat_members (
      offer_reply msg.reply_to_message
        (offer_option (codes "fwd") msg.forward_from (offer_option (codes "msg") msg.from_user s))))

-- `consume`: the second part is `found`.
unfoldable pub consume : Message → Harvester → Harvester × ℕ
unfolding offer_message
consume msg h =
    let (h', found) = offer_message msg (record h { messages_seen = h.messages_seen + 1 }, 0) in
    (note_poll msg (note_reactions msg h'), found)
