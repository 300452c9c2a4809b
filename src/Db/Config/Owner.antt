-- ===== src/Db/Config/Owner.antt =====
-- db.py: the phone of the owner and the target group share a table.
use add_members.Base.{
  ◌≡◌, ◌∙◌, refl, Bool, true, Option, none, some, List, [], ◌∷◌, Text, get, get-put, ℤ, pos, int_eq,
  Bool-cases, inl, inr, arith,
}
use add_members.Db.Config.{
  Row, Tables, Queries, set_config, set_owner_phone, get_owner_phone, kept_owner,
}

abbrev owner_row : Tables → Option Row
owner_row db = get (pos 0) db.config_tbl

get_owner_phone-row :
    (db : Tables) (row : Row) → owner_row db ≡ some row → get_owner_phone true db ≡ row.owner_phone
unfolding get_owner_phone
get_owner_phone-row db row e = rw (get_owner_phone, e) refl

-- The row of the owner has this phone.
abbrev HasOwner : Text → Tables → Type 0
HasOwner phone db = (row : Row) × (owner_row db ≡ some row) × (row.owner_phone ≡ phone)

set_owner_phone-HasOwner :
    (fresh : Row) (phone : Text) (db : Tables)
    → HasOwner phone (set_owner_phone true fresh phone db)
unfolding set_owner_phone
set_owner_phone-HasOwner fresh phone db =
    let old : Row = elim (owner_row db) [ none ↦ fresh | some r ↦ r ] in
    let row : Row = record old { owner_phone = phone } in
    (row, ground (arith, get-put (pos 0) (pos 0) row db.config_tbl), refl)

set_config-HasOwner :
    (works : Queries) (z : ℤ) (title : Text) (defense : Bool) (phone : Text) (db : Tables)
    → HasOwner phone db
    → HasOwner phone (set_config works z title defense [] db)
unfolding set_config
set_config-HasOwner works z title defense phone db (row, e, h) =
    let new : Row = record {
      group_name = title;
      defense_enabled = defense;
      owner_phone = kept_owner [] (get z db.config_tbl);
    } in
    elim (Bool-cases works.row) [
      | inl f ↦ elim (Bool-cases (int_eq.same z (pos 0))) [
        | inl g ↦
            let zero : z ≡ pos 0 = (int_eq.same_iff z (pos 0)).0 g in
            let found : get z db.config_tbl ≡ some row = rw zero e in
            (
              new,
              rw (set_config, f) (ground (arith, get-put z (pos 0) new db.config_tbl, g)),
              rw found h,
            )
        | inr g ↦
            (row, rw (set_config, f) (ground (arith, get-put z (pos 0) new db.config_tbl, g, e)), h)
      ]
      | inr f ↦ (row, rw (set_config, f) e, h)
    ]

-- The target group is set any number of times, by callers who name no owner.
abbrev pub set_targets : List (Queries × ℤ × Text × Bool) → Tables → Tables
set_targets [] db = db
set_targets ((works, z, title, defense) ∷ calls) db =
    set_targets calls (set_config works z title defense [] db)

set_targets-HasOwner :
    (calls : List (Queries × ℤ × Text × Bool)) (phone : Text) (db : Tables)
    → HasOwner phone db
    → HasOwner phone (set_targets calls db)
set_targets-HasOwner [] phone db h = h
set_targets-HasOwner ((works, z, title, defense) ∷ calls) phone db h =
    set_targets-HasOwner calls phone (set_config works z title defense [] db)
      (set_config-HasOwner works z title defense phone db h)

-- The owner is not lost. After the phone of the owner is saved, it is read back however often the
-- target group is set afterwards without an owner, also as group 0 and when some queries fail.
pub get_owner_phone-set_config :
    (fresh : Row) (phone : Text) (calls : List (Queries × ℤ × Text × Bool)) (db : Tables)
    → get_owner_phone true (set_targets calls (set_owner_phone true fresh phone db)) ≡ phone
get_owner_phone-set_config fresh phone calls db =
    let (row, e, h) =
      set_targets-HasOwner calls phone (set_owner_phone true fresh phone db)
        (set_owner_phone-HasOwner fresh phone db) in
    get_owner_phone-row (set_targets calls (set_owner_phone true fresh phone db)) row e ∙ h
