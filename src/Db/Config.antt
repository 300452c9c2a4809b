-- ===== src/Db/Config.antt =====
-- db.py: the configuration of the target group, in a table with a row for each group and in the
-- entry `active_add_target` of the table of keys and values. Booleans say which queries work.
pub mod Owner
use add_members.Base.{
  ℕ, Bool, true, false, not, ◌&&◌, ◌||◌, Option, none, some, List, [], ◌∷◌, Text, Dict, get, put, ℤ,
  pos, negsuc, int_eq, nat_beq, ltb, length, if◌then◌else◌,
}

-- A row of `config_tbl` without its key.
pub record Row : Type 0 where
  pub group_name : Text
  pub defense_enabled : Bool
  pub owner_phone : Text

-- `config_tbl`, and the group id and name of `active_add_target`.
pub record Tables : Type 0 where
  pub config_tbl : Dict ℤ Row
  pub active : Option (ℤ × Text)

-- What `get_config()` gives back.
pub record Config : Type 0 where
  pub group_id : Option ℤ
  pub group_name : Text
  pub defense_enabled : Bool
  pub owner_phone : Text

pub record Queries : Type 0 where
  pub row : Bool
  pub kv : Bool

abbrev pub is_zero : ℤ → Bool
is_zero z = int_eq.same z (pos 0)

abbrev pub is_empty : Text → Bool
is_empty s = nat_beq (length s) 0

-- `COALESCE(NULLIF(EXCLUDED.owner_phone,''), config_tbl.owner_phone)`
abbrev pub kept_owner : Text → Option Row → Text
kept_owner owner none = owner
kept_owner owner (some row) = if is_empty owner then row.owner_phone else owner

-- `set_config`
unfoldable pub set_config : Queries → ℤ → Text → Bool → Text → Tables → Tables
set_config works group_id group_name defense owner db =
    let row : Row = record {
      group_name = group_name;
      defense_enabled = defense;
      owner_phone = kept_owner owner (get group_id db.config_tbl);
    } in
    if works.row
    then record {
      config_tbl = put group_id row db.config_tbl;
      active = if works.kv then some (group_id, group_name) else db.active;
    }
    else db

-- `set_owner_phone`: a new row has the defaults of the table.
unfoldable pub set_owner_phone : Bool → Row → Text → Tables → Tables
set_owner_phone works fresh phone db =
    let row : Row = elim (get (pos 0) db.config_tbl) [ none ↦ fresh | some r ↦ r ] in
    if works
    then record db { config_tbl = put (pos 0) (record row { owner_phone = phone }) db.config_tbl }
    else db

unfoldable pub get_owner_phone : Bool → Tables → Text
get_owner_phone works db =
    if works then elim (get (pos 0) db.config_tbl) [ none ↦ [] | some r ↦ r.owner_phone ] else []

abbrev int_ltb : ℤ → ℤ → Bool
int_ltb (pos m) (pos n) = ltb m n
int_ltb (pos m) (negsuc n) = false
int_ltb (negsuc m) (pos n) = true
int_ltb (negsuc m) (negsuc n) = ltb n m

-- The order of the rows: a group before the row of no group, and then the greater id first.
abbrev pub is_before : ℤ → ℤ → Bool
is_before a b = if is_zero a then false else if is_zero b then true else int_ltb b a

-- The first row in that order.
unfoldable pub first_row : Dict ℤ Row → Option (ℤ × Row)
first_row [] = none
first_row ((id, row) ∷ rows) = elim (first_row rows) [
  | none ↦ some (id, row)
  | some (id', row') ↦ if is_before id' id then some (id', row') else some (id, row)
]

abbrev pub no_config : Config
no_config = record { group_id = none; group_name = []; defense_enabled = true; owner_phone = [] }

unfoldable pub config_of_table : Bool → Tables → Config
unfolding first_row
config_of_table works db = if not works then no_config else elim (first_row db.config_tbl) [
  | none ↦ no_config
  | some (id, row) ↦ record {
    group_id = some id;
    group_name = row.group_name;
    defense_enabled = row.defense_enabled;
    owner_phone = row.owner_phone;
  }
]

-- `get_config()`
unfoldable pub get_config : Queries → Tables → Config
unfolding config_of_table get_owner_phone
get_config works db = elim (if works.kv then db.active else none) [
  | none ↦ config_of_table works.row db
  | some (id, name) ↦
      if not (is_zero id) || not (is_empty name)
      then record {
        group_id = some id;
        group_name = name;
        defense_enabled = true;
        owner_phone = get_owner_phone works.row db;
      }
      else config_of_table works.row db
]
