-- ===== src/AddEngine/Prefilter/Examples.antt =====
-- Tests and instances of the theorems.
use add_members.Base.{
  ℕ, ◌+◌, ◌≡◌, ◌≤◌, refl, true, false, none, some, List, [], ◌∷◌, Text, codes, length, Sub, All,
  not, ◌||◌, nat_eq, nat_beq, contains, keep_if,
}
use add_members.AddEngine.Members.{Member}
use add_members.AddEngine.Prefilter.{User, member_uid, is_unaddable_user, hidden_last_seen}
use add_members.AddEngine.Prefilter.Loop.{Reply, users, prefilter_unaddable, is_flood}
use add_members.AddEngine.Prefilter.Conservation
use add_members.AddEngine.Prefilter.Kept
use add_members.AddEngine.Prefilter.Failing

abbrev plain : User
plain = record {
  is_deleted = false;
  deleted = false;
  is_bot = false;
  bot = false;
  is_self = false;
  is_scam = false;
  is_fake = false;
  status = some (codes "UserStatus.ONLINE");
}

abbrev hidden : User
hidden = record plain { status = some (codes "UserStatus.LAST_WEEK") }

abbrev person : ℕ → Member
person n = record { user_id = n; id = 0; username = codes "u"; phone = [] }

abbrev people : List Member
people = person 1 ∷ person 2 ∷ person 3 ∷ person 4 ∷ []

-- User 4 is not returned.
abbrev answer : ℕ → List ℕ → Reply
answer n ids = users ((1, some plain) ∷ (3, some hidden) ∷ [])

abbrev flood : ℕ → Text × Text
flood n = (codes "FloodWait", [])

hidden_is_unaddable : is_unaddable_user (some hidden) true ≡ some hidden_last_seen
unfolding is_unaddable_user
hidden_is_unaddable = refl

hidden_is_addable : is_unaddable_user (some hidden) false ≡ none
unfolding is_unaddable_user
hidden_is_addable = refl

flood_in_message : is_flood (codes "RPCError") (codes "Telegram says: FLOOD_WAIT_3") ≡ true
unfolding is_flood
flood_in_message = refl

filtered :
    ((prefilter_unaddable true true answer (2 ∷ []) people).keep ≡ person 1 ∷ [])
    × ((prefilter_unaddable true true answer (2 ∷ []) people).marked
        ≡ (3, codes "privacy") ∷ (4, codes "invalid") ∷ [])
unfolding prefilter_unaddable
filtered = (refl, refl)

prefilter_unaddable-handled_example :
    length (prefilter_unaddable true true answer (2 ∷ []) people).keep
      + (prefilter_unaddable true true answer (2 ∷ []) people).removed
    ≡ length people
prefilter_unaddable-handled_example =
    Conservation.prefilter_unaddable-handled true true answer (2 ∷ []) people

prefilter_unaddable-Sub_example :
    Sub (prefilter_unaddable true true answer (2 ∷ []) people).keep people
    × All (Kept.Unblocked (2 ∷ [])) (prefilter_unaddable true true answer (2 ∷ []) people).keep
prefilter_unaddable-Sub_example = Kept.prefilter_unaddable-Sub true true answer (2 ∷ []) people

prefilter_unaddable-refused_example :
    ((prefilter_unaddable true true (Failing.refused true true flood) (2 ∷ []) people).keep
      ≡ keep_if (λ m. nat_beq (member_uid m) 0 || not (contains (member_uid m) (2 ∷ []))) people)
    × ((prefilter_unaddable true true (Failing.refused true true flood) (2 ∷ []) people).marked
        ≡ [])
    × ((prefilter_unaddable true true (Failing.refused true true flood) (2 ∷ []) people).requests
        ≤ 3)
prefilter_unaddable-refused_example =
    Failing.prefilter_unaddable-refused true true flood (2 ∷ []) people
