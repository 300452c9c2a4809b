-- ===== src/ScrapeOptimize/Oracle.antt =====
-- scrape_optimize.py, `MembershipOracle`: is a user a member of the group?
-- The two sets are lists; the reply of `get_chat_member` is an argument of each call.
pub mod Answers
pub mod Requests
mod Examples
use add_members.Base.{
  ℕ, ◌+◌, ◌||◌, Bool, true, false, Option, none, some, List, [], ◌∷◌, contains, nat_eq,
  if◌then◌else◌,
}

pub record Oracle : Type 0 where
  pub known_members : List ℕ
  pub known_outsiders : List ℕ
  pub requests_made : ℕ
  pub requests_saved : ℕ

-- `get_chat_member`: a member, None, a FloodWait, or any other exception.
pub data Reply : Type 0 where
  member nobody flood_wait failed : Reply

-- `set.add`
abbrev pub add : ℕ → List ℕ → List ℕ
add uid ids = if contains uid ids then ids else uid ∷ ids

-- `__init__`
abbrev pub new : Oracle
new = record { known_members = []; known_outsiders = []; requests_made = 0; requests_saved = 0 }

unfoldable pub mark_member : ℕ → Oracle → Oracle
mark_member uid o = record o { known_members = add uid o.known_members }

unfoldable pub mark_members : List ℕ → Oracle → Oracle
unfolding mark_member
mark_members [] o = o
mark_members (uid ∷ uids) o = mark_members uids (mark_member uid o)

unfoldable pub is_settled : ℕ → Oracle → Bool
is_settled uid o = contains uid o.known_members || contains uid o.known_outsiders

-- What a request leaves behind, and its answer.
abbrev pub after_reply : ℕ → Reply → Oracle → Oracle × Bool
after_reply uid member o = (record o { known_members = add uid o.known_members }, true)
after_reply uid nobody o = (record o { known_outsiders = add uid o.known_outsiders }, false)
after_reply uid flood_wait o = (o, false)
after_reply uid failed o = (record o { known_outsiders = add uid o.known_outsiders }, false)

-- `is_member`
unfoldable pub is_member : ℕ → Reply → Oracle → Oracle × Bool
is_member uid reply o =
    if contains uid o.known_members
    then (record o { requests_saved = o.requests_saved + 1 }, true)
    else if contains uid o.known_outsiders
    then (record o { requests_saved = o.requests_saved + 1 }, false)
    else after_reply uid reply (record o { requests_made = o.requests_made + 1 })
