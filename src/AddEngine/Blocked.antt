-- ===== src/AddEngine/Blocked.antt =====
-- add_engine.py: the cache of users who are never added again.
pub mod Never
mod Examples
use add_members.Base.{
  ℕ, ◌+◌, ◌<◌, Bool, true, false, ◌||◌, Option, none, some, List, [], ◌∷◌, ◌++◌, Text, seconds, ltb,
  contains, nat_eq, if◌then◌else◌,
}
use add_members.Db.{Db, add_do_not_add, delete_user, get_blocked_user_ids}

-- `_BLOCKED_IDS_CACHE`
pub record Cache : Type 0 where
  pub ids : Option (List ℕ)
  pub ts : ℕ

abbrev pub blocked_cache_ttl : ℕ
blocked_cache_ttl = seconds 120

-- `ids is None or now - ts > ttl`
abbrev pub is_stale : ℕ → Cache → Bool
is_stale now cache = elim cache.ids [
  | none ↦ true
  | some _ ↦ ltb (cache.ts + blocked_cache_ttl) now
]

abbrev pub ids_of : Cache → List ℕ
ids_of cache = elim cache.ids [ none ↦ [] | some ids ↦ ids ]

-- `get_blocked_ids_cached`: the flags say which of the two queries work. The query function catches
-- its errors, so the `except` of the source is not reached.
unfoldable pub get_blocked_ids_cached : Bool → Bool → ℕ → Db → Cache → Cache × List ℕ
get_blocked_ids_cached first second now db cache =
    let fresh : Cache = record { ids = some (get_blocked_user_ids first second db); ts = now } in
    if is_stale now cache then (fresh, ids_of fresh) else (cache, ids_of cache)

unfoldable pub invalidate_blocked_cache : Cache → Cache
invalidate_blocked_cache cache = record { ids = none; ts = 0 }

-- A set: an id that is there is not added again.
unfoldable pub mark_added_local : ℕ → Cache → Cache
mark_added_local uid cache = elim cache.ids [
  | none ↦ cache
  | some ids ↦ record cache { ids = some (if contains uid ids then ids else uid ∷ ids) }
]

unfoldable pub never_add_again : Bool → Bool → ℕ → Text → Db → Cache → Db × Cache
unfolding invalidate_blocked_cache
never_add_again first second uid reason db cache =
    let (db', _) = add_do_not_add first uid reason db in
    let (db'', _) = delete_user second uid db' in (db'', invalidate_blocked_cache cache)
