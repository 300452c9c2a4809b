-- ===== src/Db/Limits.antt =====
-- db.py: the limits of the accounts. Times are in seconds; Booleans say which queries work.
pub mod Waiting
use add_members.Base.{
  ℕ, ◌-◌, Bool, true, false, not, ◌&&◌, Option, none, some, List, [], ◌∷◌, map, Text, Dict, get,
  put, text_eq, nat_beq, leb, ltb, length, if◌then◌else◌,
}

-- A row of `adder_limits_tbl` without its key.
pub record Limit : Type 0 where
  pub added : ℕ
  pub last_used : ℕ
  pub limitation_type : Option Text
  pub limitation_until : ℕ

abbrev pub Table : Type 0
Table = Dict Text Limit

-- On conflict, a limitation that is not given stays.
abbrev pub merged : Limit → Option Limit → Limit
merged new none = new
merged new (some old) = record new {
  limitation_type = elim new.limitation_type [ none ↦ old.limitation_type | some t ↦ some t ];
  limitation_until =
      if ltb 0 new.limitation_until then new.limitation_until else old.limitation_until;
}

-- `set_adder_limit`
unfoldable pub set_adder_limit : Bool → ℕ → Text → ℕ → Option Text → ℕ → Table → Table
set_adder_limit works now phone added kind until table =
    let new : Limit = record {
      added = added;
      last_used = now;
      limitation_type = kind;
      limitation_until = until;
    } in
    if works then put phone (merged new (get phone table)) table else table

-- `reset_adder_limits`
unfoldable pub reset_adder_limits : Bool → ℕ → Table → Table
reset_adder_limits works now table =
    if works
    then map (λ (phone, row). (phone, record row { added = 0; last_used = now })) table
    else table

-- `clear_account_limitation`
unfoldable pub clear_account_limitation : Bool → Text → Table → Table
clear_account_limitation works phone table = if not works then table else elim (get phone table) [
  | none ↦ table
  | some row ↦ put phone (record row { limitation_type = none; limitation_until = 0 }) table
]

pub data Health : Type 0 where
  healthy limited full : Health

pub record Status : Type 0 where
  pub added : ℕ
  pub health : Health
  pub limitation_type : Option Text
  pub limitation_until : ℕ
  pub remaining_seconds : ℕ

abbrev unknown : Status
unknown = record {
  added = 0;
  health = healthy;
  limitation_type = none;
  limitation_until = 0;
  remaining_seconds = 0;
}

-- `if lim_type`
abbrev pub is_set : Option Text → Bool
is_set none = false
is_set (some t) = not (nat_beq (length t) 0)

abbrev pub health_of : Option Text → ℕ → Health
health_of kind added = if is_set kind then limited else if leb 200 added then full else healthy

-- `get_account_status`: a limitation that is over is cleared.
unfoldable pub get_account_status : Bool → Bool → ℕ → Text → Table → Table × Status
unfolding clear_account_limitation
get_account_status reads clears now phone table = elim (if reads then get phone table else none) [
  | none ↦ (table, unknown)
  | some row ↦
      if ltb 0 row.limitation_until && leb row.limitation_until now
      then (
        clear_account_limitation clears phone table,
        record {
          added = row.added;
          health = health_of none row.added;
          limitation_type = none;
          limitation_until = 0;
          remaining_seconds = 0;
        },
      )
      else (
        table,
        record {
          added = row.added;
          health = health_of row.limitation_type row.added;
          limitation_type = row.limitation_type;
          limitation_until = row.limitation_until;
          remaining_seconds = row.limitation_until - now;
        },
      )
]
