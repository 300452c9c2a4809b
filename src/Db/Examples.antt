-- ===== src/Db/Examples.antt =====
-- Tests and instances of the theorems.
use add_members.Base.{
  ◌≡◌, refl, true, false, List, Text, Bool, ℤ, negsuc, none, some, ◌<◌, ◌≤◌, ◌-◌, arith, [], ◌∷◌,
  codes, nat_eq, pos,
}
use add_members.Db.Limits.{set_adder_limit, get_account_status, limited, health_of}
use add_members.Db.Limits.Waiting
use add_members.Db.Limits.Waiting.{counts, resets}
use add_members.Db.Config.{Row, Queries}
use add_members.Db.{Db, delete_user, mark_added, is_added}

abbrev tables : Db
tables = record {
  added_history = ((pos 5, 11), codes "a") ∷ [];
  do_not_add = (12, codes "privacy") ∷ [];
  scraped_users = (12, []) ∷ [];
}

added_once : mark_added true false (pos 5) 11 (codes "b") tables ≡ tables
unfolding mark_added
added_once = refl

is_added-tables : is_added true (pos 5) 11 tables ≡ true
unfolding is_added
is_added-tables = refl

deleted : (delete_user true 12 tables).1 ≡ true
unfolding delete_user
deleted = refl

abbrev empty_row : Row
empty_row = record { group_name = []; defense_enabled = true; owner_phone = [] }

abbrev twice : List (Queries × ℤ × Text × Bool)
twice =
    (record { row = true; kv = true }, pos 0, codes "@gamers", true)
    ∷ (record { row = true; kv = false }, negsuc 7, codes "old", false)
    ∷ []

abbrev phone : Text
phone = codes "+98912"

-- A count and the daily reset, after a limitation until 900.
abbrev updates : List Waiting.Update
updates = counts true 20 phone 7 ∷ resets true 30 ∷ []

get_account_status-set_adder_limit_example :
    let later =
      Waiting.run updates (set_adder_limit true 10 phone 5 (some (codes "FloodWait")) 900 []) in
    let status = (get_account_status true true 100 phone later).1 in
    (100 < 900
      → (status.health ≡ limited)
        × (status.limitation_type ≡ some (codes "FloodWait"))
        × (status.remaining_seconds ≡ 900 - 100))
    × (900 ≤ 100 → (status.health ≡ health_of none status.added) × (status.limitation_type ≡ none))
get_account_status-set_adder_limit_example =
    Waiting.get_account_status-set_adder_limit 10 phone 5 (codes "FloodWait") 900 updates [] true
      100 (omega arith) refl
