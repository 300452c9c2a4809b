-- ===== src/ScrapeOptimize/Harvester/Examples.antt =====
-- Tests and instances of the theorems.
use add_members.Base.{◌+◌, ◌≡◌, refl, true, false, none, some, [], ◌∷◌, length, All}
use add_members.ScrapeOptimize.Harvester.{User, Message, mention, other, new, consume}
use add_members.ScrapeOptimize.Harvester.Once
use add_members.ScrapeOptimize.Harvester.Everyone

abbrev ali : User
ali = record { id = 7; is_bot = false; is_deleted = false }

abbrev sara : User
sara = record { id = 8; is_bot = false; is_deleted = false }

abbrev helper_bot : User
helper_bot = record { id = 9; is_bot = true; is_deleted = false }

-- A reply to Ali by Sara that mentions a bot, with a new member who is known before.
abbrev first : Message
first = record {
  id = 100;
  from_user = some sara;
  forward_from = none;
  reply_to_message = some (record { from_user = some ali; forward_from = some sara });
  new_chat_members = record { id = 5; is_bot = false; is_deleted = false } ∷ [];
  entities = record { type = mention; user = some helper_bot } ∷ [];
  reactions = true;
  poll = false;
}

abbrev second : Message
second = record {
  id = 101;
  from_user = some ali;
  forward_from = some (record { id = 11; is_bot = false; is_deleted = false });
  reply_to_message = none;
  new_chat_members = [];
  entities = record { type = other; user = some sara } ∷ [];
  reactions = false;
  poll = true;
}

first_found : (consume first (new (5 ∷ []))).1 ≡ 2
unfolding consume
first_found = refl

second_polls : (consume second (new [])).0.poll_msg_ids ≡ 101 ∷ []
unfolding consume
second_polls = refl

new-IsOnce : Once.IsOnce (new (5 ∷ []))
new-IsOnce = (tt, tt, refl, refl)

run-IsOnce_example :
    Once.IsOnce (Everyone.run (first ∷ second ∷ []) (new (5 ∷ []))).0
    × ((Everyone.run (first ∷ second ∷ []) (new (5 ∷ []))).1 + length (new (5 ∷ [])).sunk
        ≡ length (Everyone.run (first ∷ second ∷ []) (new (5 ∷ []))).0.sunk)
run-IsOnce_example = Once.run-IsOnce (first ∷ second ∷ []) (new (5 ∷ [])) new-IsOnce

run-Harvested_example :
    All
      (λ msg.
        All
          (Everyone.Harvested (5 ∷ []) (Everyone.run (first ∷ second ∷ []) (new (5 ∷ []))).0)
          (Everyone.shown msg))
      (first ∷ second ∷ [])
run-Harvested_example = Everyone.run-Harvested (first ∷ second ∷ []) (new (5 ∷ []))
