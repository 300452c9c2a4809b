-- ===== src/Db/Limits/Waiting.antt =====
-- db.py: a limited account waits out its limitation.
use add_members.Base.{
  ℕ, ◌-◌, ◌≡◌, ◌≤◌, ◌<◌, refl, Bool, true, false, ◌&&◌, Option, none, some, List, [], ◌∷◌, map,
  Text, get, get-put, text_eq, leb, ltb, Bool-cases, inl, inr, arith,
}
use add_members.Db.Limits.{
  Limit, Table, limited, merged, set_adder_limit, reset_adder_limits, is_set, health_of,
  get_account_status,
}

-- What jobs write when they add, for any account, without a limitation; and the daily reset.
pub data Update : Type 0 where
  counts : (works : Bool) (now : ℕ) → Text → (added : ℕ) → Update
  resets : (works : Bool) (now : ℕ) → Update

abbrev pub update : Update → Table → Table
update (counts works now phone added) table = set_adder_limit works now phone added none 0 table
update (resets works now) table = reset_adder_limits works now table

abbrev pub run : List Update → Table → Table
run [] table = table
run (u ∷ updates) table = run updates (update u table)

abbrev HasLimit : Text → Text → ℕ → Table → Type 0
HasLimit phone kind until table =
    (row : Limit) × (get phone table ≡ some row)
    × (row.limitation_type ≡ some kind)
    × (row.limitation_until ≡ until)

merged-given :
    (new : Limit) (found : Option Limit) (kind : Text)
    → new.limitation_type ≡ some kind
    → 0 < new.limitation_until
    → ((merged new found).limitation_type ≡ some kind)
      × ((merged new found).limitation_until ≡ new.limitation_until)
merged-given new none kind e h = (e, refl)
merged-given new (some old) kind e h = (rw e refl, ground (arith, h))

set_adder_limit-HasLimit :
    (now : ℕ) (phone : Text) (added : ℕ) (kind : Text) (until : ℕ) (table : Table)
    → 0 < until
    → HasLimit phone kind until (set_adder_limit true now phone added (some kind) until table)
unfolding set_adder_limit
set_adder_limit-HasLimit now phone added kind until table h =
    let new : Limit = record {
      added = added;
      last_used = now;
      limitation_type = some kind;
      limitation_until = until;
    } in
    (
      merged new (get phone table),
      ground (
        arith,
        get-put phone phone (merged new (get phone table)) table,
        text_eq.same_iff phone phone,
      ),
      (merged-given new (get phone table) kind refl h).0,
      (merged-given new (get phone table) kind refl h).1,
    )

counts-HasLimit :
    (works : Bool) (now : ℕ) (other : Text) (added : ℕ) (phone kind : Text) (until : ℕ)
    (table : Table)
    → HasLimit phone kind until table
    → HasLimit phone kind until (set_adder_limit works now other added none 0 table)
unfolding set_adder_limit
counts-HasLimit false now other added phone kind until table h = h
counts-HasLimit true now other added phone kind until table (row, e, k, l) =
    let new : Limit = record {
      added = added;
      last_used = now;
      limitation_type = none;
      limitation_until = 0;
    } in
    elim (Bool-cases (text_eq.same other phone)) [
      | inl f ↦
          let same : other ≡ phone = (text_eq.same_iff other phone).0 f in
          let old : get other table ≡ some row = rw same e in
          (
            merged new (some row),
            rw old (ground (arith, get-put other phone (merged new (some row)) table, f)),
            k,
            l,
          )
      | inr f ↦ (
        row,
        ground (arith, get-put other phone (merged new (get other table)) table, f, e),
        k,
        l,
      )
    ]

resets-HasLimit :
    (works : Bool) (now : ℕ) (phone kind : Text) (until : ℕ) (table : Table)
    → HasLimit phone kind until table
    → HasLimit phone kind until (reset_adder_limits works now table)
unfolding reset_adder_limits
resets-HasLimit false now phone kind until table h = h
resets-HasLimit true now phone kind until table (row, e, k, l) =
    (record row { added = 0; last_used = now }, found table e, k, l)
  where
    found :
        (rows : Table)
        → get phone rows ≡ some row
        → get phone (map (λ (p, r). (p, record r { added = 0; last_used = now })) rows)
          ≡ some (record row { added = 0; last_used = now })
    found [] h = absurd (ground (arith, h))
    found ((p, r) ∷ rows) h = elim (Bool-cases (text_eq.same p phone)) [
      | inl f ↦ let same : r ≡ row = ground (arith, h, f) in rw (f, same) refl
      | inr f ↦ rw f (found rows (ground (arith, h, f)))
    ]

run-HasLimit :
    (updates : List Update) (phone kind : Text) (until : ℕ) (table : Table)
    → HasLimit phone kind until table
    → HasLimit phone kind until (run updates table)
run-HasLimit [] phone kind until table h = h
run-HasLimit (counts works now other added ∷ updates) phone kind until table h =
    run-HasLimit updates phone kind until (set_adder_limit works now other added none 0 table)
      (counts-HasLimit works now other added phone kind until table h)
run-HasLimit (resets works now ∷ updates) phone kind until table h =
    run-HasLimit updates phone kind until (reset_adder_limits works now table)
      (resets-HasLimit works now phone kind until table h)

status-HasLimit :
    (clears : Bool) (clock : ℕ) (phone kind : Text) (until : ℕ) (table : Table)
    → 0 < until
    → is_set (some kind) ≡ true
    → HasLimit phone kind until table
    → let status = (get_account_status true clears clock phone table).1 in
      (clock < until
        → (status.health ≡ limited)
          × (status.limitation_type ≡ some kind)
          × (status.remaining_seconds ≡ until - clock))
      × (until ≤ clock
          → (status.health ≡ health_of none status.added) × (status.limitation_type ≡ none))
unfolding get_account_status
status-HasLimit clears clock phone kind until table pos_until full (row, e, k, l) = (
  λ before.
      let waits : ltb 0 row.limitation_until && leb row.limitation_until clock ≡ false =
        ground (arith, l, before) in
      rw (get_account_status, e, waits, k, full, l) (refl, refl, refl),
  λ after.
      let over : ltb 0 row.limitation_until && leb row.limitation_until clock ≡ true =
        ground (arith, l, after, pos_until) in
      rw (get_account_status, e, over) (refl, refl),
)

-- A limited account waits out its limitation and no longer. After a limitation with a kind is saved
-- until some time, and whatever counts of additions without one and daily resets follow, working or
-- failing, the account is limited, of that kind and with the seconds that are left, at every time
-- before; from then on the limitation is over, and only the count of additions decides.
pub get_account_status-set_adder_limit :
    (now : ℕ) (phone : Text) (added : ℕ) (kind : Text) (until : ℕ) (updates : List Update)
    (table : Table) (clears : Bool) (clock : ℕ)
    → 0 < until
    → is_set (some kind) ≡ true
    → let later = run updates (set_adder_limit true now phone added (some kind) until table) in
      let status = (get_account_status true clears clock phone later).1 in
      (clock < until
        → (status.health ≡ limited)
          × (status.limitation_type ≡ some kind)
          × (status.remaining_seconds ≡ until - clock))
      × (until ≤ clock
          → (status.health ≡ health_of none status.added) × (status.limitation_type ≡ none))
get_account_status-set_adder_limit now phone added kind until updates table clears clock h k =
    let saved = set_adder_limit true now phone added (some kind) until table in
    status-HasLimit clears clock phone kind until (run updates saved) h k (
      run-HasLimit updates phone kind until saved
        (set_adder_limit-HasLimit now phone added kind until table h))
