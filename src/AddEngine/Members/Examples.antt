-- ===== src/AddEngine/Members/Examples.antt =====
-- Tests and instances of the theorems.
use add_members.Base.{◌≡◌, refl, Bool, true, false, ◌||◌, leb, IsSorted, [], ◌∷◌, codes, keep_if}
use mathlib.Core.List.{Perm}
use add_members.AddEngine.Members.{Member, prefer_addable_members}
use add_members.AddEngine.Members.Order

abbrev named : Member
named = record { user_id = 3; id = 0; username = codes " sara "; phone = [] }

abbrev phoned : Member
phoned = record { user_id = 2; id = 0; username = codes "  "; phone = codes "98912" }

abbrev bare : Member
bare = record { user_id = 10; id = 0; username = []; phone = [] }

prefer_three : prefer_addable_members (bare ∷ phoned ∷ named ∷ []) true ≡ named ∷ phoned ∷ []
unfolding prefer_addable_members
prefer_three = refl

prefer_all : prefer_addable_members (bare ∷ phoned ∷ named ∷ []) false ≡ named ∷ phoned ∷ bare ∷ []
unfolding prefer_addable_members
prefer_all = refl

prefer_addable_members-perm_example :
    Perm
      (prefer_addable_members (bare ∷ named ∷ []) true)
      (keep_if (λ u. Order.has_text u.username || Order.has_text u.phone) (bare ∷ named ∷ []))
    × Perm (prefer_addable_members (bare ∷ named ∷ []) false) (bare ∷ named ∷ [])
    × ((drop_id_only : Bool)
        → IsSorted
            (λ u v. leb (Order.kind u) (Order.kind v))
            (prefer_addable_members (bare ∷ named ∷ []) drop_id_only))
prefer_addable_members-perm_example = Order.prefer_addable_members-perm (bare ∷ named ∷ [])
