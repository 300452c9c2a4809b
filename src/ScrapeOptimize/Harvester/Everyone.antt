-- ===== src/ScrapeOptimize/Harvester/Everyone.antt =====
-- A message as the list of the users it shows, and who of them is harvested.
use add_members.Base.{
  ℕ, ◌+◌, ◌≡◌, refl, ◌∙◌, Bool, true, not, ◌&&◌, Option, none, some, List, [], ◌∷◌, ◌++◌, Text,
  codes, contains, nat_eq, nat_beq, nat_beq_iff, text_eq, arith, All, All-map,
}
use add_members.ScrapeOptimize.Harvester.{
  User, Reply, Entity, Message, Harvester, take_user, offer, offer_option, offer_reply,
  offer_joined, offer_entities, offer_message, consume, wanted_user,
}

abbrev pub option_users : Text → Option User → List (Text × User)
option_users source none = []
option_users source (some user) = (source, user) ∷ []

abbrev pub reply_users : Option Reply → List (Text × User)
reply_users none = []
reply_users (some rep) =
    option_users (codes "reply") rep.from_user ++ option_users (codes "reply_fwd") rep.forward_from

abbrev pub joined_users : List User → List (Text × User)
joined_users [] = []
joined_users (user ∷ users) = (codes "join", user) ∷ joined_users users

abbrev pub mentioned_users : List Entity → List (Text × User)
mentioned_users [] = []
mentioned_users (ent ∷ entities) =
    option_users (codes "mention") (wanted_user ent) ++ mentioned_users entities

-- Whom a message shows, with the source, in the order in which they are offered.
abbrev pub shown : Message → List (Text × User)
shown msg =
    option_users (codes "msg") msg.from_user
    ++ (option_users (codes "fwd") msg.forward_from
        ++ (reply_users msg.reply_to_message
            ++ (joined_users msg.new_chat_members ++ mentioned_users msg.entities)))

unfoldable pub offer_all : List (Text × User) → Harvester × ℕ → Harvester × ℕ
unfolding offer
offer_all [] s = s
offer_all ((source, user) ∷ users) s = offer_all users (offer source user s)

offer_all-append :
    (us vs : List (Text × User)) (s : Harvester × ℕ)
    → offer_all (us ++ vs) s ≡ offer_all vs (offer_all us s)
unfolding offer_all
offer_all-append [] vs s = refl
offer_all-append ((source, user) ∷ us) vs s = offer_all-append us vs (offer source user s)

option-all :
    (source : Text) (user : Option User) (s : Harvester × ℕ)
    → offer_option source user s ≡ offer_all (option_users source user) s
unfolding offer_option offer_all
option-all source none s = refl
option-all source (some user) s = refl

unfold_nil : (s : Harvester × ℕ) → s ≡ offer_all [] s
unfolding offer_all
unfold_nil s = refl

reply-all :
    (rep : Option Reply) (s : Harvester × ℕ) → offer_reply rep s ≡ offer_all (reply_users rep) s
unfolding offer_reply
reply-all none s = unfold_nil s
reply-all (some rep) s = cc (
  offer_all-append (option_users (codes "reply") rep.from_user)
      (option_users (codes "reply_fwd") rep.forward_from) s,
  option-all (codes "reply") rep.from_user s,
  option-all (codes "reply_fwd") rep.forward_from (offer_option (codes "reply") rep.from_user s),
)

joined-all :
    (users : List User) (s : Harvester × ℕ)
    → offer_joined users s ≡ offer_all (joined_users users) s
unfolding offer_joined offer_all
joined-all [] s = refl
joined-all (user ∷ users) s = joined-all users (offer (codes "join") user s)

entities-all :
    (entities : List Entity) (s : Harvester × ℕ)
    → offer_entities entities s ≡ offer_all (mentioned_users entities) s
unfolding offer_entities
entities-all [] s = unfold_nil s
entities-all (ent ∷ entities) s = cc (
  offer_all-append (option_users (codes "mention") (wanted_user ent)) (mentioned_users entities) s,
  option-all (codes "mention") (wanted_user ent) s,
  entities-all entities (offer_option (codes "mention") (wanted_user ent) s),
)

pub message-all :
    (msg : Message) (s : Harvester × ℕ) → offer_message msg s ≡ offer_all (shown msg) s
unfolding offer_message
message-all msg s =
    let first = option_users (codes "msg") msg.from_user in
    let forwarded = option_users (codes "fwd") msg.forward_from in
    let replied = reply_users msg.reply_to_message in
    let joined = joined_users msg.new_chat_members in
    let mentioned = mentioned_users msg.entities in
    let s1 = offer_option (codes "msg") msg.from_user s in
    let s2 = offer_option (codes "fwd") msg.forward_from s1 in
    let s3 = offer_reply msg.reply_to_message s2 in
    let s4 = offer_joined msg.new_chat_members s3 in
    cc (
      offer_all-append first (forwarded ++ (replied ++ (joined ++ mentioned))) s,
      offer_all-append forwarded (replied ++ (joined ++ mentioned)) s1,
      offer_all-append replied (joined ++ mentioned) s2,
      offer_all-append joined mentioned s3,
      option-all (codes "msg") msg.from_user s,
      option-all (codes "fwd") msg.forward_from s1,
      reply-all msg.reply_to_message s2,
      joined-all msg.new_chat_members s3,
      entities-all msg.entities s4,
    )

-- A user whom the harvester may take, and who was not known before.
abbrev pub is_acceptable : List ℕ → User → Bool
is_acceptable existing user =
    not (nat_beq user.id 0)
    && not (contains user.id existing)
    && not user.is_bot
    && not user.is_deleted

pub offer_existing :
    (source : Text) (user : User) (s : Harvester × ℕ)
    → (offer source user s).0.existing ≡ s.0.existing
unfolding offer take_user
offer_existing source user s = ground arith

offer_keeps :
    (source : Text) (user : User) (s : Harvester × ℕ) (uid : ℕ)
    → contains uid s.0.seen_users ≡ true
    → contains uid (offer source user s).0.seen_users ≡ true
unfolding offer take_user
offer_keeps source user s uid h = ground arith

offer_takes :
    (source : Text) (user : User) (s : Harvester × ℕ)
    → is_acceptable s.0.existing user ≡ true
    → contains user.id (offer source user s).0.seen_users ≡ true
unfolding offer take_user
offer_takes source user s h = ground (arith, nat_beq_iff user.id user.id)

pub offer_all_existing :
    (users : List (Text × User)) (s : Harvester × ℕ) → (offer_all users s).0.existing ≡ s.0.existing
unfolding offer_all
offer_all_existing [] s = refl
offer_all_existing ((source, user) ∷ users) s =
    offer_all_existing users (offer source user s) ∙ offer_existing source user s

offer_all_keeps :
    (users : List (Text × User)) (s : Harvester × ℕ) (uid : ℕ)
    → contains uid s.0.seen_users ≡ true
    → contains uid (offer_all users s).0.seen_users ≡ true
unfolding offer_all
offer_all_keeps [] s uid h = h
offer_all_keeps ((source, user) ∷ users) s uid h =
    offer_all_keeps users (offer source user s) uid (offer_keeps source user s uid h)

abbrev pub Harvested : List ℕ → Harvester → Text × User → Type 0
Harvested existing h (_, user) =
    is_acceptable existing user ≡ true → contains user.id h.seen_users ≡ true

offer_all_takes :
    (users : List (Text × User)) (s : Harvester × ℕ) (existing : List ℕ)
    → s.0.existing ≡ existing
    → All (Harvested existing (offer_all users s).0) users
unfolding offer_all
offer_all_takes [] s existing e = tt
offer_all_takes ((source, user) ∷ users) s existing e = (
  λ h. offer_all_keeps users (offer source user s) user.id (offer_takes source user s (rw e h)),
  offer_all_takes users (offer source user s) existing (offer_existing source user s ∙ e),
)

-- What `consume` does to the parts that concern users.
pub consume-all :
    (msg : Message) (h : Harvester)
    → ((consume msg h).0.existing
        ≡ (offer_all (shown msg) (record h { messages_seen = h.messages_seen + 1 }, 0)).0.existing)
      × ((consume msg h).0.seen_users
          ≡ (offer_all
              (shown msg)
              (record h { messages_seen = h.messages_seen + 1 }, 0)).0.seen_users)
      × ((consume msg h).0.sunk
          ≡ (offer_all (shown msg) (record h { messages_seen = h.messages_seen + 1 }, 0)).0.sunk)
      × ((consume msg h).0.counts
          ≡ (offer_all (shown msg) (record h { messages_seen = h.messages_seen + 1 }, 0)).0.counts)
      × ((consume msg h).1
          ≡ (offer_all (shown msg) (record h { messages_seen = h.messages_seen + 1 }, 0)).1)
unfolding consume
consume-all msg h =
    rw (← message-all msg (record h { messages_seen = h.messages_seen + 1 }, 0))
      (ground arith, ground arith, ground arith, ground arith, ground arith)

-- Messages one after the other, and the sum of what they found.
unfoldable pub run : List Message → Harvester → Harvester × ℕ
unfolding consume
run [] h = (h, 0)
run (msg ∷ msgs) h =
    let (h', found) = consume msg h in let (h'', rest) = run msgs h' in (h'', found + rest)

run_keeps :
    (msgs : List Message) (h : Harvester) (uid : ℕ)
    → contains uid h.seen_users ≡ true
    → contains uid (run msgs h).0.seen_users ≡ true
unfolding run
run_keeps [] h uid c = c
run_keeps (msg ∷ msgs) h uid c = run_keeps msgs (consume msg h).0 uid (
    rw (consume-all msg h).1
      (offer_all_keeps (shown msg) (record h { messages_seen = h.messages_seen + 1 }, 0) uid c))

run_takes :
    (msgs : List Message) (h : Harvester) (existing : List ℕ)
    → h.existing ≡ existing
    → All (λ msg. All (Harvested existing (run msgs h).0) (shown msg)) msgs
unfolding run
run_takes [] h existing e = tt
run_takes (msg ∷ msgs) h existing e =
    let start : Harvester × ℕ = (record h { messages_seen = h.messages_seen + 1 }, 0) in
    (
      All-map (shown msg)
          (λ (source, user) f a.
            run_keeps msgs (consume msg h).0 user.id (rw (consume-all msg h).1 (f a)))
          (offer_all_takes (shown msg) start existing e),
      run_takes msgs (consume msg h).0 existing
          ((consume-all msg h).0 ∙ offer_all_existing (shown msg) start ∙ e),
    )

-- After any sequence of messages, everyone whom one of the messages shows (as sender, forwarded,
-- replied to, new member or mention) and who is no bot, not deleted, has an id and was not in
-- `existing` is among the seen users.
pub run-Harvested :
    (msgs : List Message) (h : Harvester)
    → All (λ msg. All (Harvested h.existing (run msgs h).0) (shown msg)) msgs
run-Harvested msgs h = run_takes msgs h h.existing refl
