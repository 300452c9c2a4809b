-- ===== src/AddEngine/Blocked/Never.antt =====
-- Who is refused once stays refused, through the cache.
use add_members.Base.{
  ℕ, ◌+◌, ◌≤◌, ◌≡◌, ◌⊎◌, inl, inr, All, Bool, true, false, none, some, List, [], ◌∷◌, Text,
  contains, nat_beq_iff, nat_eq, ℤ, arith,
}
use add_members.Db.{Db, add_do_not_add, mark_added, get_blocked_user_ids}
use add_members.Db.Blocklist.{
  Blocked, add_do_not_add-Blocked, add_do_not_add-Blocked_self, delete_user-Blocked,
  mark_added-Blocked,
}
use add_members.AddEngine.Blocked.{
  Cache, blocked_cache_ttl, is_stale, get_blocked_ids_cached, invalidate_blocked_cache,
  mark_added_local, never_add_again,
}

-- The calls of all workers on the shared cache and the database, in the order they happen. The flags
-- say which of the queries and writes work.
pub data Call : Type 0 where
  check : (first second : Bool) (now : ℕ) → Call
  added : (ok purges : Bool) (gid : ℤ) (uid : ℕ) (phone : Text) → Call
  local_added : (uid : ℕ) → Call
  never : (first second : Bool) (uid : ℕ) (reason : Text) → Call
  invalidate : Call

unfoldable pub step : Call → Db × Cache → Db × Cache
unfolding get_blocked_ids_cached mark_added_local never_add_again
step (check first second now) (db, cache) =
    (db, (get_blocked_ids_cached first second now db cache).0)
step (added ok purges gid uid phone) (db, cache) = (mark_added ok purges gid uid phone db, cache)
step (local_added uid) (db, cache) = (db, mark_added_local uid cache)
step (never first second uid reason) (db, cache) = never_add_again first second uid reason db cache
step invalidate (db, cache) = (db, invalidate_blocked_cache cache)

unfoldable pub run : List Call → Db × Cache → Db × Cache
unfolding step
run [] s = s
run (call ∷ calls) s = run calls (step call s)

-- Each check in between has both queries working.
abbrev pub Works : Call → Type 0
Works (check first second now) = (first ≡ true) × (second ≡ true)
Works (added ok purges gid uid phone) = Unit {0}
Works (local_added uid) = Unit {0}
Works (never first second uid reason) = Unit {0}
Works invalidate = Unit {0}

-- Checks up to the time `limit`, and additions that are written to the database only.
abbrev pub Reads : ℕ → Call → Type 0
Reads limit (check first second now) = now ≤ limit
Reads limit (added ok purges gid uid phone) = Unit {0}
Reads limit (local_added uid) = false ≡ true
Reads limit (never first second uid reason) = false ≡ true
Reads limit invalidate = false ≡ true

-- The set that the cache holds, if it holds any, has the user.
abbrev pub Covers : ℕ → Cache → Type 0
Covers uid cache = elim cache.ids [ none ↦ Unit {0} | some ids ↦ contains uid ids ≡ true ]

step-Blocked :
    (uid : ℕ) (call : Call) (s : Db × Cache) → Blocked uid s.0 → Blocked uid (step call s).0
unfolding step
step-Blocked uid (check first second now) (db, cache) h = h
step-Blocked uid (added ok purges gid other phone) (db, cache) h =
    mark_added-Blocked ok purges uid gid other phone db h
step-Blocked uid (local_added other) (db, cache) h = h
step-Blocked uid (never first second other reason) (db, cache) h =
    delete_user-Blocked second uid other (add_do_not_add first other reason db).0
      (add_do_not_add-Blocked first uid other reason db h)
step-Blocked uid invalidate (db, cache) h = h

step-Covers :
    (uid : ℕ) (call : Call) (s : Db × Cache)
    → Works call
    → Blocked uid s.0
    → Covers uid s.1
    → Covers uid (step call s).1
unfolding step
step-Covers uid (check first second now) (db, cache) w b h = rw (w.0, w.1) (ground (arith, b, h))
step-Covers uid (added ok purges gid other phone) (db, cache) w b h = h
step-Covers uid (local_added other) (db, cache) w b h = ground (arith, h, nat_beq_iff other uid)
step-Covers uid (never first second other reason) (db, cache) w b h = tt
step-Covers uid invalidate (db, cache) w b h = tt

run-Blocked :
    (uid : ℕ) (calls : List Call) (s : Db × Cache) → Blocked uid s.0 → Blocked uid (run calls s).0
unfolding run
run-Blocked uid [] s h = h
run-Blocked uid (call ∷ calls) s h = run-Blocked uid calls (step call s) (step-Blocked uid call s h)

run-Covers :
    (uid : ℕ) (calls : List Call) (s : Db × Cache)
    → All Works calls
    → Blocked uid s.0
    → Covers uid s.1
    → Covers uid (run calls s).1
unfolding run
run-Covers uid [] s w b h = h
run-Covers uid (call ∷ calls) s w b h =
    run-Covers uid calls (step call s) w.1 (step-Blocked uid call s b)
      (step-Covers uid call s w.0 b h)

check-Covers :
    (uid now : ℕ) (s : Db × Cache)
    → Blocked uid s.0
    → Covers uid s.1 ⊎ (is_stale now s.1 ≡ true)
    → contains uid (get_blocked_ids_cached true true now s.0 s.1).1 ≡ true
unfolding get_blocked_ids_cached
check-Covers uid now (db, cache) b (inl h) = ground (arith, b, h)
check-Covers uid now (db, cache) b (inr h) = ground (arith, b, h)

never_add_again-Blocked :
    (second : Bool) (uid : ℕ) (reason : Text) (db : Db) (cache : Cache)
    → Blocked uid (never_add_again true second uid reason db cache).0
unfolding never_add_again
never_add_again-Blocked second uid reason db cache =
    delete_user-Blocked second uid uid (add_do_not_add true uid reason db).0
      (add_do_not_add-Blocked_self uid reason db)

never_add_again-Covers :
    (second : Bool) (uid : ℕ) (reason : Text) (db : Db) (cache : Cache)
    → Covers uid (never_add_again true second uid reason db cache).1
unfolding never_add_again
never_add_again-Covers second uid reason db cache = tt

-- Never again. Once `never_add_again(uid)` has written its row, a later check whose queries work has
-- `uid` in its set, whatever the workers call in between (additions and refusals whose writes work
-- or fail, updates of the cache, invalidations, checks at any times), on one of two conditions:
-- either both queries of every check in between work too, or this check finds the cache empty or
-- older than two minutes, and then checks in between may fail as well.
pub never_add_again-get_blocked_ids_cached :
    (second : Bool) (uid : ℕ) (reason : Text) (db : Db) (cache : Cache) (calls : List Call)
    (now : ℕ)
    → All Works calls
      ⊎ (is_stale now (run calls (never_add_again true second uid reason db cache)).1 ≡ true)
    → contains uid
        (get_blocked_ids_cached true true now
          (run calls (never_add_again true second uid reason db cache)).0
          (run calls (never_add_again true second uid reason db cache)).1).1
      ≡ true
never_add_again-get_blocked_ids_cached second uid reason db cache calls now h =
    let s : Db × Cache = never_add_again true second uid reason db cache in
    let b : Blocked uid s.0 = never_add_again-Blocked second uid reason db cache in
    check-Covers uid now (run calls s) (run-Blocked uid calls s b) (elim h [
      | inl w ↦ inl (run-Covers uid calls s w b (never_add_again-Covers second uid reason db cache))
      | inr stale ↦ inr stale
    ])

-- The cache holds the empty set, and was loaded at `now`.
abbrev Poisoned : ℕ → Cache → Type 0
Poisoned now cache = (cache.ids ≡ some []) × (cache.ts ≡ now)

step-Poisoned :
    (now : ℕ) (call : Call) (s : Db × Cache)
    → Reads (now + blocked_cache_ttl) call
    → Poisoned now s.1
    → Poisoned now (step call s).1
unfolding step get_blocked_ids_cached
step-Poisoned now (check first second now') (db, cache) r h = ground (arith, r, h.0, h.1)
step-Poisoned now (added ok purges gid uid phone) (db, cache) r h = h
step-Poisoned now (local_added uid) (db, cache) r h = cc
step-Poisoned now (never first second uid reason) (db, cache) r h = cc
step-Poisoned now invalidate (db, cache) r h = cc

run-Poisoned :
    (now : ℕ) (calls : List Call) (s : Db × Cache)
    → All (Reads (now + blocked_cache_ttl)) calls
    → Poisoned now s.1
    → Poisoned now (run calls s).1
unfolding run
run-Poisoned now [] s r h = h
run-Poisoned now (call ∷ calls) s r h =
    run-Poisoned now calls (step call s) r.1 (step-Poisoned now call s r.0 h)

check-Poisoned :
    (first second : Bool) (now now' : ℕ) (s : Db × Cache)
    → now' ≤ now + blocked_cache_ttl
    → Poisoned now s.1
    → (get_blocked_ids_cached first second now' s.0 s.1).1 ≡ []
unfolding get_blocked_ids_cached
check-Poisoned first second now now' (db, cache) soon h = ground (arith, h.0, h.1)

failed-Poisoned :
    (second : Bool) (now : ℕ) (db : Db) (cache : Cache)
    → is_stale now cache ≡ true
    → Poisoned now (get_blocked_ids_cached false second now db cache).0
unfolding get_blocked_ids_cached get_blocked_user_ids
failed-Poisoned second now db cache stale = ground arith

-- A failed query is cached as if it were an answer: when the first query fails at a reload, every
-- check in the next two minutes returns the empty set, whether its own queries work or not, if in
-- between there are only other checks and additions that are written to the database. (An addition
-- to the cached set, a refusal or an invalidation in between are not covered.)
pub get_blocked_ids_cached-failed :
    (second first' second' : Bool) (now now' : ℕ) (db : Db) (cache : Cache) (calls : List Call)
    → is_stale now cache ≡ true
    → All (Reads (now + blocked_cache_ttl)) calls
    → now' ≤ now + blocked_cache_ttl
    → (get_blocked_ids_cached first' second' now'
        (run (check false second now ∷ calls) (db, cache)).0
        (run (check false second now ∷ calls) (db, cache)).1).1
      ≡ []
unfolding run step
get_blocked_ids_cached-failed second first' second' now now' db cache calls stale reads soon =
    check-Poisoned first' second' now now' (run calls (step (check false second now) (db, cache)))
      soon
      (run-Poisoned now calls (step (check false second now) (db, cache)) reads
        (failed-Poisoned second now db cache stale))
