-- ===== src/AddEngine/Prefilter/Loop.antt =====
-- add_engine.py, `prefilter_unaddable`: the batches, and what is kept when a request fails.
use add_members.Base.{
  ℕ, zero, suc, ◌+◌, Bool, true, false, not, ◌&&◌, ◌||◌, Option, none, some, List, [], ◌∷◌, ◌++◌,
  map, Text, Dict, get, put, codes, lower, has_part, nat_eq, nat_beq, leb, contains, take, drop,
  length, if◌then◌else◌,
}
use add_members.AddEngine.Members.{Member}
use add_members.AddEngine.Prefilter.{
  User, Reason, blocked, not_found, is_unaddable_user, stored_reason, member_uid,
}

-- The reply to a request: the users with their ids, or an exception with its class name and text.
pub data Reply : Type 0 where
  users : List (ℕ × Option User) → Reply
  error : (name message : Text) → Reply

-- `"Flood" in name or "flood" in str(e).lower()`
unfoldable pub is_flood : Text → Text → Bool
unfolding has_part lower
is_flood name message = has_part (codes "Flood") name || has_part (codes "flood") (lower message)

-- The local variables of the loop. `reasons` has one entry for each removed member, in any order
-- (the source counts them), and `marked` the calls of `never_add_again`, oldest first.
pub record Progress : Type 0 where
  pub keep : List Member
  pub checked : ℕ
  pub removed : ℕ
  pub reasons : List Reason
  pub errors : ℕ
  pub aborted : Bool
  pub consecutive_errors : ℕ
  pub marked : List (ℕ × Text)
  pub requests : ℕ

abbrev pub removes : Reason → Progress → Progress
removes why p = record p { removed = p.removed + 1; reasons = why ∷ p.reasons }

-- The first loop: who is on the list of blocked users is removed with no request.
unfoldable pub stage : List ℕ → List Member → Progress → List (ℕ × Member) × Progress
stage blocked_ids [] p = ([], p)
stage blocked_ids (m ∷ members) p =
    let uid = member_uid m in
    let (staged, p') = stage blocked_ids members p in
    if not (nat_beq uid 0) && contains uid blocked_ids
    then (staged, removes blocked p')
    else ((uid, m) ∷ staged, p')

-- `[uid for uid, _ in chunk if uid]`
unfoldable pub ids_of : List (ℕ × Member) → List ℕ
ids_of [] = []
ids_of ((uid, m) ∷ chunk) = let rest = ids_of chunk in if nat_beq uid 0 then rest else uid ∷ rest

-- `fetched[int(u.id)] = u`
unfoldable pub fetched_of : List (ℕ × Option User) → Dict ℕ (Option User) → Dict ℕ (Option User)
fetched_of [] fetched = fetched
fetched_of ((uid, u) ∷ reply) fetched = fetched_of reply (put uid u fetched)

-- `fetched.get(uid)`
abbrev pub found : ℕ → Dict ℕ (Option User) → Option User
found uid fetched = elim (get uid fetched) [ none ↦ none | some u ↦ u ]

abbrev pub marks : Bool → ℕ → Text → Progress → Progress
marks mark_blocked uid reason p =
    if mark_blocked && not (nat_beq uid 0)
    then record p { marked = p.marked ++ ((uid, reason) ∷ []) }
    else p

-- What is said of a member: none keeps it. A user who was not returned is removed only if some id
-- of the batch was asked.
unfoldable pub verdict : Bool → Bool → Option User → Option Reason
unfolding is_unaddable_user
verdict strict_privacy asked none = if asked then some not_found else none
verdict strict_privacy asked (some u) = is_unaddable_user (some u) strict_privacy

-- The body of the loop over the members of a batch.
unfoldable pub judge_one :
    Bool → Bool → Bool → Dict ℕ (Option User) → ℕ × Member → Progress → Progress
unfolding verdict stored_reason
judge_one mark_blocked strict_privacy asked fetched (uid, m) p =
    elim (verdict strict_privacy asked (found uid fetched)) [
      | none ↦ record p { keep = p.keep ++ (m ∷ []) }
      | some why ↦ marks mark_blocked uid (stored_reason why) (removes why p)
    ]

unfoldable pub judge :
    Bool → Bool → Bool → Dict ℕ (Option User) → List (ℕ × Member) → Progress → Progress
unfolding judge_one
judge mark_blocked strict_privacy asked fetched [] p = p
judge mark_blocked strict_privacy asked fetched (x ∷ chunk) p =
    judge mark_blocked strict_privacy asked fetched chunk
      (judge_one mark_blocked strict_privacy asked fetched x p)

abbrev pub members_of : List (ℕ × Member) → List Member
members_of staged = map (λ (_, m). m) staged

-- What comes of one batch: the loop goes on, or it is abandoned.
pub data Outcome : Type 0 where
  next : Progress → Outcome
  stop : Progress → Outcome

-- `_PREFILTER_BATCH`
abbrev pub prefilter_batch : ℕ
prefilter_batch = 100

-- A request that failed: at a flood, and at the third failure in a row, all that is left is kept.
unfoldable pub on_error : Text → Text → List (ℕ × Member) → List (ℕ × Member) → Progress → Outcome
unfolding is_flood
on_error name message chunk rest p =
    let failed : Progress = record p { errors = p.errors + 1; requests = p.requests + 1 } in
    let kept : Progress = record failed {
      keep = failed.keep ++ members_of chunk;
      consecutive_errors = failed.consecutive_errors + 1;
    } in
    if is_flood name message
    then stop (record failed { keep = failed.keep ++ members_of (chunk ++ rest); aborted = true })
    else if leb 3 kept.consecutive_errors
    then stop (record kept { keep = kept.keep ++ members_of rest; aborted = true })
    else next kept

abbrev pub start : Progress
start = record {
  keep = [];
  checked = 0;
  removed = 0;
  reasons = [];
  errors = 0;
  aborted = false;
  consecutive_errors = 0;
  marked = [];
  requests = 0;
}

module _ (mark_blocked strict_privacy : Bool) (get_users : ℕ → List ℕ → Reply) where
  abbrev pub on_reply : List (ℕ × Member) → List (ℕ × Member) → Progress → Reply → Outcome
  on_reply chunk rest p (error name message) = on_error name message chunk rest p
  on_reply chunk rest p (users reply) = next (
      judge mark_blocked strict_privacy true (fetched_of reply []) chunk (record p {
        checked = p.checked + length (ids_of chunk);
        consecutive_errors = 0;
        requests = p.requests + 1;
      }))

  -- The body of the loop: a batch with no id asks nothing.
  unfoldable pub batch : List (ℕ × Member) → List (ℕ × Member) → Progress → Outcome
  unfolding on_error judge fetched_of ids_of
  batch chunk rest p = elim (ids_of chunk) [
    | [] ↦ next (judge mark_blocked strict_privacy false [] chunk p)
    | uid ∷ uids ↦ on_reply chunk rest p (get_users p.requests (uid ∷ uids))
  ]

  -- The loop over the batches. The fuel is the number of staged members.
  unfoldable pub batches : ℕ → List (ℕ × Member) → Progress → Progress
  unfolding batch
  batches fuel [] p = p
  batches zero (x ∷ staged) p = p
  batches (suc fuel) (x ∷ staged) p =
      elim (batch (take prefilter_batch (x ∷ staged)) (drop prefilter_batch (x ∷ staged)) p) [
        | stop p' ↦ p'
        | next p' ↦ batches fuel (drop prefilter_batch (x ∷ staged)) p'
      ]

  -- `prefilter_unaddable`: the list that is kept, with the counts. `stats["kept"]` is its length.
  unfoldable pub prefilter_unaddable : List ℕ → List Member → Progress
  unfolding stage batches
  prefilter_unaddable blocked_ids members =
      let (staged, p) = stage blocked_ids members start in batches (length staged) staged p
