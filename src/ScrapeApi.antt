-- ===== src/ScrapeApi.antt =====
-- scrape_api.py: reading long answers of Telegram page by page.
-- A generator is given the replies to its requests in their order, and returns what it yields, with
-- the requests that it makes. The replies may end before the generator does.
pub mod Paging
mod Examples
use add_members.Base.{
  ℕ, ◌+◌, Bool, true, false, not, Option, none, some, List, [], ◌∷◌, ◌++◌, Text, Dict, get, nat_eq,
  nat_beq, ltb, leb, length, if◌then◌else◌,
}

-- `peer_user_id`: a peer is given by its `user_id`; 0 is false in Python.
abbrev pub peer_user_id : Option ℕ → Option ℕ
peer_user_id none = none
peer_user_id (some uid) = if nat_beq uid 0 then none else some uid

-- `getattr(v, "user_id", None) or peer_user_id(...)`
abbrev pub vote_user_id : Option ℕ × Option ℕ → Option ℕ
vote_user_id (user_id, peer) = elim (peer_user_id user_id) [
  | some uid ↦ some uid
  | none ↦ peer_user_id peer
]

-- A page of reactions or of votes: its entries, its users by id, and the offset of the next page,
-- none if it is missing or empty. `E` is a reaction or a vote.
pub data Reply (E : Type 0) : Type 0 where
  page : (entries : List E) (users : Dict ℕ Text) (next_offset : Option Text) → Reply E
  flood : Reply E
  failed : Reply E

pub record Run : Type 0 where
  pub yielded : List (ℕ × Option Text)
  pub requests : List (Option Text)
  pub finished : Bool

module _ {E : Type 0} (uid_of : E → Option ℕ) (max_total : ℕ) where
  -- The loop over the entries of a page, with what it yields, `seen`, and whether it returns.
  unfoldable pub yield_page : Dict ℕ Text → List E → ℕ → List (ℕ × Option Text) × ℕ × Bool
  yield_page users [] seen = ([], seen, false)
  yield_page users (entry ∷ entries) seen =
      let skipped = yield_page users entries seen in
      let (more, seen', stopped) = yield_page users entries (seen + 1) in
      elim (uid_of entry) [
        | none ↦ skipped
        | some uid ↦
            if leb max_total (seen + 1)
            then ((uid, get uid users) ∷ [], seen + 1, true)
            else ((uid, get uid users) ∷ more, seen', stopped)
      ]

  -- `while True`: a flood repeats the request, any other exception ends the loop.
  unfoldable pub iter_pages : List (Reply E) → Option Text → ℕ → Run
  unfolding yield_page
  iter_pages [] offset seen = record { yielded = []; requests = []; finished = false }
  iter_pages (flood ∷ replies) offset seen =
      let rest = iter_pages replies offset seen in record rest { requests = offset ∷ rest.requests }
  iter_pages (failed ∷ replies) offset seen = record {
    yielded = [];
    requests = offset ∷ [];
    finished = true;
  }
  iter_pages (page [] users next_offset ∷ replies) offset seen = record {
    yielded = [];
    requests = offset ∷ [];
    finished = true;
  }
  iter_pages (page (entry ∷ entries) users none ∷ replies) offset seen = record {
    yielded = (yield_page users (entry ∷ entries) seen).0;
    requests = offset ∷ [];
    finished = true;
  }
  iter_pages (page (entry ∷ entries) users (some next) ∷ replies) offset seen =
      let (here, seen', stopped) = yield_page users (entry ∷ entries) seen in
      let rest = iter_pages replies (some next) seen' in
      if stopped
      then record { yielded = here; requests = offset ∷ []; finished = true }
      else record {
        yielded = here ++ rest.yielded;
        requests = offset ∷ rest.requests;
        finished = rest.finished;
      }

-- `iter_message_reactors`: a reaction is given by the user id of its peer.
unfoldable pub iter_message_reactors : ℕ → List (Reply (Option ℕ)) → Run
unfolding iter_pages
iter_message_reactors max_total replies = iter_pages peer_user_id max_total replies none 0

-- `iter_poll_voters`: a vote is given by its user id and that of its peer.
unfoldable pub iter_poll_voters : ℕ → List (Reply (Option ℕ × Option ℕ)) → Run
unfolding iter_pages
iter_poll_voters max_total replies = iter_pages vote_user_id max_total replies none 0

-- The answers to `GetParticipants`.
pub data Answer : Type 0 where
  users : List ℕ → Answer
  busy : Answer
  refused : Answer

pub record Search : Type 0 where
  pub found : List ℕ
  pub offsets : List ℕ
  pub ended : Bool

-- `iter_participants_search`, for a channel. `offsets` has the offset of each request.
unfoldable pub iter_participants_search : ℕ → ℕ → List Answer → ℕ → Search
iter_participants_search limit max_total [] offset = record {
  found = [];
  offsets = [];
  ended = leb max_total offset;
}
iter_participants_search limit max_total (busy ∷ answers) offset =
    let rest = iter_participants_search limit max_total answers offset in
    if ltb offset max_total
    then record rest { offsets = offset ∷ rest.offsets }
    else record { found = []; offsets = []; ended = true }
iter_participants_search limit max_total (refused ∷ answers) offset = record {
  found = [];
  offsets = if ltb offset max_total then offset ∷ [] else [];
  ended = true;
}
iter_participants_search limit max_total (users [] ∷ answers) offset = record {
  found = [];
  offsets = if ltb offset max_total then offset ∷ [] else [];
  ended = true;
}
iter_participants_search limit max_total (users (u ∷ us) ∷ answers) offset =
    let rest = iter_participants_search limit max_total answers (offset + length (u ∷ us)) in
    if leb max_total offset
    then record { found = []; offsets = []; ended = true }
    else if ltb (length (u ∷ us)) limit
    then record { found = u ∷ us; offsets = offset ∷ []; ended = true }
    else record {
      found = (u ∷ us) ++ rest.found;
      offsets = offset ∷ rest.offsets;
      ended = rest.ended;
    }
