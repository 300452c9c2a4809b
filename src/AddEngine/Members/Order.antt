-- ===== src/AddEngine/Members/Order.antt =====
-- What `prefer_addable_members` returns.
use add_members.Base.{
  ℕ, ◌≡◌, refl, Bool, true, false, not, ◌||◌, List, [], ◌∷◌, Text, strip, length, ltb, leb,
  text_leb_total, text_leb_trans, sort_by-perm, sort_by-IsSorted, IsSorted, All, keep_if, subst, ap,
  arith, if◌then◌else◌,
}
use mathlib.Core.List.{Perm}
use add_members.AddEngine.Members.{
  Member, is_empty, is_id_only, addable, key, key_leb, prefer_addable_members,
}

key_leb_total : (a b : ℕ × Text) → key_leb a b ≡ false → key_leb b a ≡ true
key_leb_total (a, s) (b, t) h = ground (arith, text_leb_total s t)

key_leb_trans : (a b c : ℕ × Text) → key_leb a b ≡ true → key_leb b c ≡ true → key_leb a c ≡ true
key_leb_trans (a, s) (b, t) (c, u) h k = ground (arith, text_leb_trans s t u)

addable_all : (members : List Member) → addable false members ≡ members
unfolding addable
addable_all [] = refl
addable_all (u ∷ members) = ap (λ l. u ∷ l) (addable_all members)

-- The text has something besides spaces.
abbrev pub has_text : Text → Bool
has_text t = ltb 0 (length (strip t))

-- 0 for a member with a user name, 1 for one with a phone number only, and else 2.
abbrev pub kind : Member → ℕ
kind u = if has_text u.username then 0 else if has_text u.phone then 1 else 2

is_empty-length : (t : Text) → is_empty t ≡ not (ltb 0 (length t))
is_empty-length [] = refl
is_empty-length (c ∷ t) = ground arith

is_id_only-has_text : (u : Member) → not (is_id_only u) ≡ (has_text u.username || has_text u.phone)
unfolding is_id_only
is_id_only-has_text u =
    ground (arith, is_empty-length (strip u.username), is_empty-length (strip u.phone))

addable-keep_if :
    (members : List Member)
    → addable true members ≡ keep_if (λ u. has_text u.username || has_text u.phone) members
unfolding addable
addable-keep_if [] = refl
addable-keep_if (u ∷ members) = ground (arith, addable-keep_if members, is_id_only-has_text u)

key-kind : (u : Member) → (key u).0 ≡ kind u
unfolding key
key-kind u = ground (arith, is_empty-length (strip u.username), is_empty-length (strip u.phone))

key_leb-kind : (u v : Member) → key_leb (key u) (key v) ≡ true → leb (kind u) (kind v) ≡ true
key_leb-kind u v h = ground (arith, h, key-kind u, key-kind v)

-- Members with a user name come first, then those with a phone number only, then the rest; within
-- each kind they are in the order of the code points of that text.
pub prefer_addable_members-IsSorted :
    (members : List Member) (drop_id_only : Bool)
    → IsSorted (λ u v. key_leb (key u) (key v)) (prefer_addable_members members drop_id_only)
unfolding prefer_addable_members
prefer_addable_members-IsSorted members drop_id_only =
    sort_by-IsSorted (λ u v. key_leb (key u) (key v)) (λ u v. key_leb_total (key u) (key v))
      (λ u v w. key_leb_trans (key u) (key v) (key w)) (addable drop_id_only members)

All-kind :
    (u : Member) (vs : List Member)
    → All (λ v. key_leb (key u) (key v) ≡ true) vs
    → All (λ v. leb (kind u) (kind v) ≡ true) vs
All-kind u [] h = tt
All-kind u (v ∷ vs) h = (key_leb-kind u v h.0, All-kind u vs h.1)

IsSorted-kind :
    (us : List Member)
    → IsSorted (λ u v. key_leb (key u) (key v)) us
    → IsSorted (λ u v. leb (kind u) (kind v)) us
IsSorted-kind [] h = tt
IsSorted-kind (u ∷ us) h = (All-kind u us h.0, IsSorted-kind us h.1)

-- What is returned, for any list. With `drop_id_only` it holds exactly the members whose user name
-- or phone number is not blank, each as often as it was given; without it, all members. In both
-- cases all members with a user name stand before all with a phone number only, and these before
-- the rest.
pub prefer_addable_members-perm :
    (members : List Member)
    → Perm
        (prefer_addable_members members true)
        (keep_if (λ u. has_text u.username || has_text u.phone) members)
      × Perm (prefer_addable_members members false) members
      × ((drop_id_only : Bool)
          → IsSorted (λ u v. leb (kind u) (kind v)) (prefer_addable_members members drop_id_only))
unfolding prefer_addable_members
prefer_addable_members-perm members = (
  subst (Perm _) (addable-keep_if members)
      (sort_by-perm (λ u v. key_leb (key u) (key v)) (addable true members)),
  subst (Perm _) (addable_all members)
      (sort_by-perm (λ u v. key_leb (key u) (key v)) (addable false members)),
  λ drop_id_only. IsSorted-kind _ (prefer_addable_members-IsSorted members drop_id_only),
)
