-- ===== src/ScrapeOptimize/Harvester/Once.antt =====
-- The sink gets nobody twice, and the counts are right.
use add_members.Base.{
  ℕ, ◌+◌, ◌≡◌, refl, ap, true, false, not, ◌&&◌, List, [], ◌∷◌, map, Text, Dict, put, length,
  contains, nat_eq, text_eq, text_beq_iff, arith, All, inl, inr, Bool-cases, Distinct,
}
use add_members.ScrapeOptimize.Harvester.{
  User, Message, Harvester, take_user, offer, consume, count_of,
}
use add_members.ScrapeOptimize.Harvester.Everyone.{
  shown, offer_all, is_acceptable, consume-all, run,
}

abbrev pub total : Dict Text ℕ → ℕ
total [] = 0
total ((source, n) ∷ counts) = n + total counts

total-put :
    (source : Text) (n : ℕ) (counts : Dict Text ℕ)
    → total (put source n counts) + count_of source counts ≡ total counts + n
total-put source n [] = omega arith
total-put source n ((other, k) ∷ counts) =
    ground (arith, total-put source n counts, text_beq_iff other source)

-- The ids in the calls of the sink, newest first.
abbrev pub sunk_ids : List (User × Text) → List ℕ
sunk_ids sunk = map (λ (user, _). user.id) sunk

-- The sink got each id once, only acceptable users, exactly those who are seen, and as many as the
-- counts say.
abbrev pub IsOnce : Harvester → Type 0
IsOnce h =
    Distinct (sunk_ids h.sunk)
    × All (λ (user, _). is_acceptable h.existing user ≡ true) h.sunk
    × (sunk_ids h.sunk ≡ h.seen_users)
    × (total h.counts ≡ length h.sunk)

offer_refused :
    (source : Text) (user : User) (s : Harvester × ℕ)
    → is_acceptable s.0.existing user && not (contains user.id s.0.seen_users) ≡ false
    → offer source user s ≡ s
unfolding offer take_user
offer_refused source user s h = ground arith

offer_taken :
    (source : Text) (user : User) (s : Harvester × ℕ)
    → is_acceptable s.0.existing user && not (contains user.id s.0.seen_users) ≡ true
    → offer source user s ≡ (
      record s.0 {
        seen_users = user.id ∷ s.0.seen_users;
        counts = put source (count_of source s.0.counts + 1) s.0.counts;
        sunk = (user, source) ∷ s.0.sunk;
      },
      s.1 + 1,
    )
unfolding offer take_user
offer_taken source user s h = ground arith

-- What an offer keeps: the invariant, and `found` minus the calls of the sink.
abbrev Goes : Harvester × ℕ → Harvester × ℕ → Type 0
Goes s t = IsOnce t.0 × (t.1 + length s.0.sunk ≡ s.1 + length t.0.sunk)

offer-Goes :
    (source : Text) (user : User) (s : Harvester × ℕ) → IsOnce s.0 → Goes s (offer source user s)
offer-Goes source user s once =
    elim (Bool-cases (is_acceptable s.0.existing user && not (contains user.id s.0.seen_users))) [
      | inl e ↦ rw (offer_taken source user s e) (
        (
          (ground (arith, once.2), once.0),
          (ground arith, once.1),
          ap (λ ids. user.id ∷ ids) once.2,
          ground (arith, once.3, total-put source (count_of source s.0.counts + 1) s.0.counts),
        ),
        omega arith,
      )
      | inr e ↦ rw (offer_refused source user s e) (once, omega arith)
    ]

offer_all-Goes :
    (users : List (Text × User)) (s : Harvester × ℕ) → IsOnce s.0 → Goes s (offer_all users s)
unfolding offer_all
offer_all-Goes [] s once = (once, refl)
offer_all-Goes ((source, user) ∷ users) s once =
    let (now, here) = offer-Goes source user s once in
    let (then_once, rest) = offer_all-Goes users (offer source user s) now in
    (then_once, omega (arith, here, rest))

consume-Goes : (msg : Message) (h : Harvester) → IsOnce h → Goes (h, 0) (consume msg h)
consume-Goes msg h once =
    let start : Harvester × ℕ = (record h { messages_seen = h.messages_seen + 1 }, 0) in
    let (same_existing, same_seen, same_sunk, same_counts, same_found) = consume-all msg h in
    let (now, here) = offer_all-Goes (shown msg) start once in
    rw (same_existing, same_seen, same_sunk, same_counts, same_found) (now, here)

-- From any harvester that keeps the invariant (a new one does), after any sequence of messages: the
-- sink got no id twice, only users who are no bot, not deleted, have an id and are not in
-- `existing`, and exactly the seen ones; the counts by source add up to its calls; and the numbers
-- that `consume` returned add up to the calls it made.
pub run-IsOnce :
    (msgs : List Message) (h : Harvester)
    → IsOnce h
    → IsOnce (run msgs h).0 × ((run msgs h).1 + length h.sunk ≡ length (run msgs h).0.sunk)
unfolding run
run-IsOnce [] h once = (once, omega arith)
run-IsOnce (msg ∷ msgs) h once =
    let (now, here) = consume-Goes msg h once in
    let (after, rest) = run-IsOnce msgs (consume msg h).0 now in (after, omega (arith, here, rest))
