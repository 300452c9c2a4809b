-- ===== src/Db.antt =====
-- db.py: the tables that decide whom the bot may add, as PostgreSQL keeps them.
-- psycopg2 may raise at any query: a Boolean argument says that a query works. Each function
-- catches the error, as the source does.
pub mod Blocklist
pub mod Config
pub mod Limits
mod Examples
use add_members.Base.{
  ℕ, Bool, true, false, Option, none, some, List, [], ◌∷◌, ◌++◌, map, Text, Dict, get, put, pop,
  contains, not, keep_if, nat_eq, pair_eq, ℤ, int_eq, if◌then◌else◌,
}

-- `added_history_tbl` by (group_id, user_id), `do_not_add_tbl` by user_id with the reason, and
-- `scraped_users` by user_id. The column `added_at` is left out.
pub record Db : Type 0 where
  pub added_history : Dict (ℤ × ℕ) Text
  pub do_not_add : Dict ℕ Text
  pub scraped_users : Dict ℕ Text

-- `add_do_not_add`: insert, or a new reason on conflict.
unfoldable pub add_do_not_add : Bool → ℕ → Text → Db → Db × Bool
add_do_not_add false user_id reason db = (db, false)
add_do_not_add true user_id reason db =
    (record db { do_not_add = put user_id reason db.do_not_add }, true)

unfoldable pub is_do_not_add : Bool → ℕ → Db → Bool
is_do_not_add false user_id db = false
is_do_not_add true user_id db = elim (get user_id db.do_not_add) [ some _ ↦ true | none ↦ false ]

unfoldable pub delete_user : Bool → ℕ → Db → Db × Bool
delete_user false user_id db = (db, false)
delete_user true user_id db = (
  record db { scraped_users = pop user_id db.scraped_users },
  elim (get user_id db.scraped_users) [ some _ ↦ true | none ↦ false ],
)

unfoldable pub is_added : Bool → ℤ → ℕ → Db → Bool
is_added false group_id user_id db = false
is_added true group_id user_id db = elim (get (group_id, user_id) db.added_history) [
  | some _ ↦ true
  | none ↦ false
]

abbrev pub added_ids : Dict (ℤ × ℕ) Text → List ℕ
added_ids rows = map (λ (key, _). key.1) rows

-- `purge_added_users`: the records of the users who were added are deleted, if the query works.
unfoldable pub purge_added_users : Bool → Db → Db
purge_added_users false db = db
purge_added_users true db = record db {
  scraped_users =
      keep_if (λ (uid, _). not (contains uid (added_ids db.added_history))) db.scraped_users;
}

-- The row is inserted, and nothing is done on conflict.
abbrev pub with_added : ℤ → ℕ → Text → Db → Db
with_added group_id user_id phone db = elim (get (group_id, user_id) db.added_history) [
  | some _ ↦ db
  | none ↦ record db { added_history = put (group_id, user_id) phone db.added_history }
]

-- `mark_added`: the flags say whether the insertion works, and whether `_maybe_autopurge` purges then
-- (it does at every 300th addition).
unfoldable pub mark_added : Bool → Bool → ℤ → ℕ → Text → Db → Db
unfolding purge_added_users
mark_added false purges group_id user_id phone db = db
mark_added true purges group_id user_id phone db =
    purge_added_users purges (with_added group_id user_id phone db)

-- `is_added_anywhere`
unfoldable pub is_added_anywhere : Bool → ℕ → Db → Bool
is_added_anywhere false user_id db = false
is_added_anywhere true user_id db = contains user_id (added_ids db.added_history)

-- `get_blocked_user_ids`: an error ends the reading, and what was read before it is returned.
unfoldable pub get_blocked_user_ids : Bool → Bool → Db → List ℕ
get_blocked_user_ids false _ db = []
get_blocked_user_ids true false db = added_ids db.added_history
get_blocked_user_ids true true db =
    added_ids db.added_history ++ map (λ (user_id, _). user_id) db.do_not_add
