-- ===== src/AccountState/Steps.antt =====
-- A run of calls by any number of callers, each with its clock reading.
use add_members.Base.{ℕ, Bool, false, Option, some, List, [], ◌∷◌, Text, text_eq, ◌==◌}
use add_members.AccountState.{
  State, mark_busy, release, busy_label, all_busy, mark_used, set_last_error,
}

pub data Call : Type 0 where
  mark : (phone label : Text) → Call
  free : (phone : Option Text) → Call
  ask : (phone : Text) → Call
  list : Call
  used : (phone : Option Text) → Call
  error : (phone : Option Text) (msg : Text) → Call

unfoldable pub step : ℕ → Call → State → State
unfolding mark_busy release busy_label all_busy mark_used set_last_error
step now (mark phone label) s = (mark_busy now phone label s).0
step now (free phone) s = release phone s
step now (ask phone) s = (busy_label now phone s).0
step now list s = (all_busy now s).0
step now (used phone) s = mark_used now phone s
step now (error phone msg) s = set_last_error phone msg s

unfoldable pub run : List (ℕ × Call) → State → State
unfolding step
run [] s = s
run ((now, call) ∷ calls) s = run calls (step now call s)

-- The call is `release(phone)`.
abbrev pub frees : Text → Call → Bool
frees phone (free (some other)) = other == phone
frees phone _ = false
