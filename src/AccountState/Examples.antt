-- ===== src/AccountState/Examples.antt =====
-- Tests and instances of the theorems.
use add_members.Base.{
  ℕ, ◌≡◌, refl, true, false, none, some, List, [], ◌∷◌, Text, codes, seconds, text_eq, arith,
}
use add_members.AccountState.{
  State, mark_busy, busy_label, reset_for_tests, set_last_error, get_last_error, mark_used,
  last_used,
}
use add_members.AccountState.Steps.{Call, run}
use add_members.AccountState.Locking

abbrev phone : Text
phone = codes "+989120000001"

abbrev empty : State
empty = record { busy = []; last_used = []; last_error = [] }

abbrev held : State
held = record empty { busy = (phone, record { label = codes "scan"; ts = seconds 10 }) ∷ [] }

abbrev meanwhile : List (ℕ × Call)
meanwhile =
    (seconds 11, Call.ask phone)
    ∷ (seconds 12, Call.list)
    ∷ (seconds 13, Call.free (some (codes "+989120000002")))
    ∷ (seconds 20, Call.mark phone (codes "attack"))
    ∷ []

mark_busy_first : mark_busy (seconds 10) phone (codes "scan") empty ≡ (held, (true, none))
unfolding mark_busy
mark_busy_first = refl

busy_label_expired : busy_label (seconds 2711) phone held ≡ (empty, none)
unfolding busy_label
busy_label_expired = refl

error_cleared :
    get_last_error phone
      (set_last_error (some phone) [] (set_last_error (some phone) (codes "flood") empty))
    ≡ []
unfolding get_last_error set_last_error
error_cleared = refl

used_then_read : last_used phone (mark_used 7 (some phone) (reset_for_tests held)) ≡ 7
unfolding last_used mark_used reset_for_tests
used_then_read = refl

mark_busy_exclusive_example :
    mark_busy
      (seconds 30)
      phone
      (codes "login")
      (run meanwhile (mark_busy (seconds 10) phone (codes "scan") empty).0)
    ≡ (
      run meanwhile (mark_busy (seconds 10) phone (codes "scan") empty).0,
      (false, some (codes "scan")),
    )
unfolding mark_busy
mark_busy_exclusive_example =
    Locking.mark_busy_exclusive (seconds 10) (seconds 30) phone (codes "scan") (codes "login") empty
      meanwhile tt refl
      ((omega arith, refl), ((omega arith, refl), ((omega arith, refl), ((omega arith, refl), tt))))
      (omega arith)
