-- ===== src/AddEngine/Members.antt =====
-- add_engine.py, `prefer_addable_members`: who can be resolved, and in which order.
-- A `Member` is the dictionary of a scraped user; a missing text is empty, a missing id is 0.
pub mod Order
mod Examples
use add_members.Base.{
  ℕ, Bool, true, false, ◌&&◌, not, List, [], ◌∷◌, Text, strip, show, text_leb, text_eq, ltb,
  nat_beq, sort_by, if◌then◌else◌,
}

pub record Member : Type 0 where
  pub user_id : ℕ
  pub id : ℕ
  pub username : Text
  pub phone : Text

abbrev pub is_empty : Text → Bool
is_empty [] = true
is_empty (c ∷ cs) = false

-- Skipped by `drop_id_only`: neither a user name nor a phone number.
unfoldable pub is_id_only : Member → Bool
unfolding strip
is_id_only u = is_empty (strip u.username) && is_empty (strip u.phone)

-- The `for` loop.
unfoldable pub addable : Bool → List Member → List Member
unfolding is_id_only
addable drop_id_only [] = []
addable drop_id_only (u ∷ members) =
    let out = addable drop_id_only members in if drop_id_only && is_id_only u then out else u ∷ out

-- `_key`
unfoldable pub key : Member → ℕ × Text
unfolding strip show
key u =
    if not (is_empty (strip u.username))
    then (0, strip u.username)
    else if not (is_empty (strip u.phone))
    then (1, strip u.phone)
    else (2, show u.user_id)

-- Tuples are compared from the left.
abbrev pub key_leb : ℕ × Text → ℕ × Text → Bool
key_leb (a, s) (b, t) = if ltb a b then true else if nat_beq a b then text_leb s t else false

unfoldable pub prefer_addable_members : List Member → Bool → List Member
unfolding addable key
prefer_addable_members members drop_id_only =
    sort_by (λ u v. key_leb (key u) (key v)) (addable drop_id_only members)
