-- ===== src/GroupManager/Warnings/Examples.antt =====
-- Tests and instances of the theorems.
use add_members.Base.{ℕ, ◌+◌, ◌≡◌, ◌<◌, refl, true, [], ◌∷◌, ◌++◌, negsuc, suc, arith}
use add_members.GroupManager.Warnings.{
  Settings, told_limit, told_warning, warn_calls, mute, restricted, add_warn, db_warns,
}
use add_members.GroupManager.Warnings.Limit

abbrev three : Settings
three = record { warn_limit = 3; warn_action = mute; warn_mute_hours = 12 }

third :
    (add_warn true three (negsuc 4) 7 (((negsuc 4, 7), 2) ∷ [])).1
    ≡ restricted 7 43200 ∷ told_limit 7 3 ∷ []
unfolding add_warn
third = refl

clean : db_warns true (negsuc 4) 7 [] ≡ 0
unfolding db_warns
clean = refl

warn_times-limit_example :
    ((k : ℕ)
      → k < 2
      → (add_warn true three (negsuc 4) 7 (Limit.warn_times k three (negsuc 4) 7 [])).1
        ≡ told_warning 7 (k + 1) three.warn_limit ∷ [])
    × ((add_warn true three (negsuc 4) 7 (Limit.warn_times 2 three (negsuc 4) 7 [])).1
        ≡ warn_calls three three.warn_action 7 ++ (told_limit 7 three.warn_limit ∷ []))
    × (db_warns true (negsuc 4) 7 (Limit.warn_times (suc 2) three (negsuc 4) 7 []) ≡ 0)
warn_times-limit_example = Limit.warn_times-limit three (negsuc 4) 7 [] 2 clean (omega arith)
