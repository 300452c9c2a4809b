-- ===== src/AddEngine/Blocked/Examples.antt =====
-- Tests and instances of the theorems.
use add_members.Base.{
  ◌≡◌, refl, inl, true, false, none, some, List, [], ◌∷◌, codes, contains, nat_eq, seconds, pos,
  arith,
}
use add_members.Db.{Db, get_blocked_user_ids, delete_user, add_do_not_add}
use add_members.AddEngine.Blocked.{Cache, get_blocked_ids_cached, never_add_again, mark_added_local}
use add_members.AddEngine.Blocked.Never
use add_members.AddEngine.Blocked.Never.{Call, run}

abbrev tables : Db
tables = record {
  added_history = ((pos 5, 11), []) ∷ [];
  do_not_add = [];
  scraped_users = (11, []) ∷ (12, []) ∷ [];
}

abbrev cold : Cache
cold = record { ids = none; ts = 0 }

abbrev later_calls : List Call
later_calls =
    Call.check true true (seconds 1)
    ∷ Call.added false true (pos 5) 13 []
    ∷ Call.local_added 14
    ∷ Call.never false true 15 []
    ∷ Call.check true true (seconds 500)
    ∷ []

read_both :
    (get_blocked_ids_cached true true 9
      (never_add_again true true 12 (codes "privacy") tables cold).0
      cold).1
    ≡ 11 ∷ 12 ∷ []
unfolding get_blocked_ids_cached never_add_again get_blocked_user_ids delete_user add_do_not_add
read_both = refl

local_twice :
    mark_added_local 7 (record { ids = some (7 ∷ []); ts = 1 })
    ≡ record { ids = some (7 ∷ []); ts = 1 }
unfolding mark_added_local
local_twice = refl

abbrev quiet_calls : List Call
quiet_calls =
    Call.check true true (seconds 20)
    ∷ Call.added true true (pos 5) 13 []
    ∷ Call.check false true 0
    ∷ []

never_add_again-get_blocked_ids_cached_example :
    contains 12
      (get_blocked_ids_cached true true
        (seconds 501)
        (run later_calls (never_add_again true false 12 (codes "privacy") tables cold)).0
        (run later_calls (never_add_again true false 12 (codes "privacy") tables cold)).1).1
    ≡ true
never_add_again-get_blocked_ids_cached_example =
    Never.never_add_again-get_blocked_ids_cached false 12 (codes "privacy") tables cold later_calls
      (seconds 501) (inl ((refl, refl), (tt, (tt, (tt, ((refl, refl), tt))))))

get_blocked_ids_cached-failed_example :
    (get_blocked_ids_cached true true
      (seconds 100)
      (run (Call.check false true (seconds 10) ∷ quiet_calls) (tables, cold)).0
      (run (Call.check false true (seconds 10) ∷ quiet_calls) (tables, cold)).1).1
    ≡ []
get_blocked_ids_cached-failed_example =
    Never.get_blocked_ids_cached-failed true true true (seconds 10) (seconds 100) tables cold
      quiet_calls refl (omega arith, (tt, (omega arith, tt))) (omega arith)
