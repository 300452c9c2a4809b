-- ===== src/AccountState/Locking.antt =====
-- The lock: who holds an account, and for how long.
use add_members.Base.{
  ℕ, ◌+◌, ◌≤◌, ◌<◌, ◌≡◌, refl, ◌⊎◌, inl, inr, true, false, none, some, List, [], ◌∷◌, Text, Dict,
  get, All, text_eq, text_beq_iff, arith, IsUnique, get-put, get-pop, get-pop_all, get-purge,
  put-IsUnique, pop-IsUnique, pop_all-IsUnique, keys_where, if◌then◌else◌, map,
}
use add_members.AccountState.{
  Entry, State, default_ttl, is_expired, mark_busy, release, busy_label, all_busy,
}
use add_members.AccountState.Steps.{Call, mark, free, ask, list, used, error, step, run, frees}

step-IsUnique :
    (now : ℕ) (call : Call) (s : State) → IsUnique s.busy → IsUnique (step now call s).busy
unfolding step
step-IsUnique now (mark phone label) s u =
    ground (arith, put-IsUnique phone (record { label = label; ts = now }) s.busy u)
step-IsUnique now (free none) s u = u
step-IsUnique now (free (some phone)) s u = pop-IsUnique phone s.busy u
step-IsUnique now (ask phone) s u = ground (arith, pop-IsUnique phone s.busy u)
step-IsUnique now list s u =
    pop_all-IsUnique (keys_where (λ entry. is_expired entry now) s.busy) s.busy u
step-IsUnique now (used none) s u = u
step-IsUnique now (used (some phone)) s u = u
step-IsUnique now (error none msg) s u = u
step-IsUnique now (error (some phone) []) s u = u
step-IsUnique now (error (some phone) (c ∷ cs)) s u = u

-- No account is listed twice, whatever is called.
pub run-IsUnique :
    (calls : List (ℕ × Call)) (s : State) → IsUnique s.busy → IsUnique (run calls s).busy
unfolding run
run-IsUnique [] s u = u
run-IsUnique ((now, call) ∷ calls) s u =
    run-IsUnique calls (step now call s) (step-IsUnique now call s u)

-- A call within the time of the entry that does not free it leaves it as it is.
step-holds :
    (now : ℕ) (call : Call) (s : State) (phone : Text) (entry : Entry)
    → IsUnique s.busy
    → get phone s.busy ≡ some entry
    → now ≤ entry.ts + default_ttl
    → frees phone call ≡ false
    → get phone (step now call s).busy ≡ some entry
unfolding step
step-holds now (mark p label) s phone entry u h t f =
    ground
      (arith, get-put p phone (record { label = label; ts = now }) s.busy, text_beq_iff p phone)
step-holds now (free none) s phone entry u h t f = h
step-holds now (free (some p)) s phone entry u h t f = ground (arith, get-pop p phone s.busy)
step-holds now (ask p) s phone entry u h t f =
    ground (arith, get-pop p phone s.busy, text_beq_iff p phone)
step-holds now list s phone entry u h t f = ground (
  arith,
  get-pop_all (keys_where (λ (e : Entry). is_expired e now) s.busy) phone s.busy,
  get-purge (λ (e : Entry). is_expired e now) phone s.busy u,
)
step-holds now (used none) s phone entry u h t f = h
step-holds now (used (some p)) s phone entry u h t f = h
step-holds now (error none msg) s phone entry u h t f = h
step-holds now (error (some p) []) s phone entry u h t f = h
step-holds now (error (some p) (c ∷ cs)) s phone entry u h t f = h

-- Every call of the run is within the time of an entry made at `since`, and none frees `phone`.
abbrev pub Undisturbed : Text → ℕ → List (ℕ × Call) → Type 0
Undisturbed phone since calls =
    All (λ (now, call). (now ≤ since + default_ttl) × (frees phone call ≡ false)) calls

run-holds :
    (calls : List (ℕ × Call)) (s : State) (phone : Text) (entry : Entry)
    → IsUnique s.busy
    → get phone s.busy ≡ some entry
    → Undisturbed phone entry.ts calls
    → get phone (run calls s).busy ≡ some entry
unfolding run
run-holds [] s phone entry u h q = h
run-holds ((now, call) ∷ calls) s phone entry u h q =
    run-holds calls (step now call s) phone entry (step-IsUnique now call s u)
      (step-holds now call s phone entry u h q.0.0 q.0.1) q.1

-- What a granted `mark_busy` leaves behind.
mark_busy_granted :
    (t : ℕ) (phone label : Text) (s : State)
    → (mark_busy t phone label s).1 ≡ (true, none)
    → get phone (mark_busy t phone label s).0.busy ≡ some (record { label = label; ts = t })
unfolding mark_busy
mark_busy_granted t phone label s h =
    ground (
      arith,
      get-put phone phone (record { label = label; ts = t }) s.busy,
      text_beq_iff phone phone,
    )

mark_busy_refused :
    (now : ℕ) (phone label : Text) (s : State) (entry : Entry)
    → get phone s.busy ≡ some entry
    → now ≤ entry.ts + default_ttl
    → mark_busy now phone label s ≡ (s, (false, some entry.label))
unfolding mark_busy
mark_busy_refused now phone label s entry h t = ground arith

-- Mutual exclusion. After `mark_busy(phone, label)` was granted at time `t`, whatever is called by
-- anyone up to 45 minutes later, except `release(phone)`: a second `mark_busy(phone, _)` in that
-- time is refused, names the first caller's label and changes nothing.
pub mark_busy_exclusive :
    (t now : ℕ) (phone label other : Text) (s : State) (calls : List (ℕ × Call))
    → IsUnique s.busy
    → (mark_busy t phone label s).1 ≡ (true, none)
    → Undisturbed phone t calls
    → now ≤ t + default_ttl
    → mark_busy now phone other (run calls (mark_busy t phone label s).0)
      ≡ (run calls (mark_busy t phone label s).0, (false, some label))
unfolding step
mark_busy_exclusive t now phone label other s calls u granted quiet early =
    mark_busy_refused now phone other (run calls (mark_busy t phone label s).0)
      (record { label = label; ts = t })
      (run-holds calls (mark_busy t phone label s).0 phone (record { label = label; ts = t })
        (step-IsUnique t (mark phone label) s u) (mark_busy_granted t phone label s granted) quiet)
      early

-- No lock is for ever: `mark_busy` is granted when the account has no entry, or one that is more
-- than 45 minutes old; then the account carries the new label, and every other account is as
-- before.
pub mark_busy_free :
    (now : ℕ) (phone label : Text) (s : State)
    → (get phone s.busy ≡ none)
      ⊎ ((entry : Entry) × (get phone s.busy ≡ some entry) × (entry.ts + default_ttl < now))
    → ((mark_busy now phone label s).1 ≡ (true, none))
      × ((q : Text)
          → get q (mark_busy now phone label s).0.busy ≡ (
              if text_eq.same phone q
              then some (record { label = label; ts = now })
              else get q s.busy))
unfolding mark_busy
mark_busy_free now phone label s (inl absent) =
    (ground arith, λ q. ground (arith, get-put phone q (record { label = label; ts = now }) s.busy))
mark_busy_free now phone label s (inr (entry, found, old)) =
    (ground arith, λ q. ground (arith, get-put phone q (record { label = label; ts = now }) s.busy))

-- `release` frees the account at once: the next `mark_busy` of anyone is granted.
pub mark_busy-release :
    (now : ℕ) (phone label : Text) (s : State)
    → (mark_busy now phone label (release (some phone) s)).1 ≡ (true, none)
unfolding mark_busy release
mark_busy-release now phone label s =
    ground (arith, get-pop phone phone s.busy, text_beq_iff phone phone)

get-map_label :
    (phone : Text) (d : Dict Text Entry)
    → get phone (map (λ (p, entry). (p, entry.label)) d)
      ≡ elim (get phone d) [ none ↦ none | some entry ↦ some entry.label ]
get-map_label phone [] = refl
get-map_label phone ((p, entry) ∷ d) = ground (arith, get-map_label phone d)

-- `all_busy` and `busy_label` agree: for each account, the map that `all_busy` returns holds the
-- very label that `busy_label` gives at the same time, and the account is missing from it exactly
-- when `busy_label` gives none. An expired entry is dropped by either.
pub all_busy-busy_label :
    (now : ℕ) (phone : Text) (s : State)
    → IsUnique s.busy
    → (get phone (all_busy now s).1 ≡ (busy_label now phone s).1)
      × (get phone (all_busy now s).0.busy ≡ get phone (busy_label now phone s).0.busy)
unfolding all_busy busy_label
all_busy-busy_label now phone s u = ground (
  arith,
  get-map_label phone (all_busy now s).0.busy,
  get-pop_all (keys_where (λ (e : Entry). is_expired e now) s.busy) phone s.busy,
  get-purge (λ (e : Entry). is_expired e now) phone s.busy u,
  get-pop phone phone s.busy,
  text_beq_iff phone phone,
)
