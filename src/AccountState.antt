-- ===== src/AccountState.antt =====
-- account_state.py: which accounts are in use, with a lock that expires by itself.
-- `State` holds the three module dictionaries. The module's `threading.Lock` makes each function
-- one atomic step, so a function is a map from the clock reading and the state to the new state.
pub mod Locking
mod Steps
mod Examples
use add_members.Base.{
  ℕ, ◌+◌, ◌<◌, Bool, true, false, not, Option, none, some, List, [], ◌∷◌, map, Text, Dict, get, put,
  pop, keys_where, pop_all, ltb, take, seconds, text_eq, if◌then◌else◌, length,
}

pub record Entry : Type 0 where
  pub label : Text
  pub ts : ℕ

pub record State : Type 0 where
  pub busy : Dict Text Entry
  pub last_used : Dict Text ℕ
  pub last_error : Dict Text Text

-- `_DEFAULT_TTL`: 45 minutes.
abbrev pub default_ttl : ℕ
default_ttl = seconds 2700

unfoldable pub is_expired : Entry → ℕ → Bool
is_expired entry now = ltb (entry.ts + default_ttl) now

-- The answer is `(True, None)` or `(False, label of the owner)`.
unfoldable pub mark_busy : ℕ → Text → Text → State → State × (Bool × Option Text)
unfolding is_expired
mark_busy now phone label s =
    let granted : State × (Bool × Option Text) =
      (record s { busy = put phone (record { label = label; ts = now }) s.busy }, (true, none)) in
    elim (get phone s.busy) [
      | some entry ↦ if is_expired entry now then granted else (s, (false, some entry.label))
      | none ↦ granted
    ]

unfoldable pub release : Option Text → State → State
release none s = s
release (some phone) s = record s { busy = pop phone s.busy }

unfoldable pub busy_label : ℕ → Text → State → State × Option Text
unfolding is_expired
busy_label now phone s = elim (get phone s.busy) [
  | some entry ↦
      if is_expired entry now
      then (record s { busy = pop phone s.busy }, none)
      else (s, some entry.label)
  | none ↦ (s, none)
]

-- Purges what has expired, and returns the labels of the rest.
unfoldable pub all_busy : ℕ → State → State × Dict Text Text
unfolding is_expired
all_busy now s =
    let kept = pop_all (keys_where (λ entry. is_expired entry now) s.busy) s.busy in
    (record s { busy = kept }, map (λ (phone, entry). (phone, entry.label)) kept)

unfoldable pub mark_used : ℕ → Option Text → State → State
mark_used now none s = s
mark_used now (some phone) s = record s { last_used = put phone now s.last_used }

unfoldable pub last_used : Text → State → ℕ
last_used phone s = elim (get phone s.last_used) [ some t ↦ t | none ↦ 0 ]

-- An empty message clears the entry, and a message is cut to 240 characters.
unfoldable pub set_last_error : Option Text → Text → State → State
set_last_error none msg s = s
set_last_error (some phone) [] s = record s { last_error = pop phone s.last_error }
set_last_error (some phone) (c ∷ cs) s = record s {
  last_error = put phone (take 240 (c ∷ cs)) s.last_error;
}

unfoldable pub get_last_error : Text → State → Text
get_last_error phone s = elim (get phone s.last_error) [ some msg ↦ msg | none ↦ [] ]

unfoldable pub reset_for_tests : State → State
reset_for_tests s = record { busy = []; last_used = []; last_error = [] }
