-- ===== src/GroupManager/Warnings/Limit.antt =====
-- The last warning punishes and starts the count again.
use add_members.Base.{
  ℕ, zero, suc, ◌+◌, ◌≡◌, ◌<◌, ◌≤◌, ap, ◌∙◌, true, none, some, [], ◌∷◌, ◌++◌, get, put,
  get-put_self, get-pop_self, ℤ, int_eq, nat_eq, pair_eq, arith,
}
use add_members.GroupManager.Warnings.{
  Table, Settings, told_limit, told_warning, warn_calls, add_warn, db_warns,
}

-- `k` warnings of one user.
unfoldable pub warn_times : ℕ → Settings → ℤ → ℕ → Table → Table
unfolding add_warn
warn_times zero s chat_id user_id table = table
warn_times (suc k) s chat_id user_id table =
    (add_warn true s chat_id user_id (warn_times k s chat_id user_id table)).0

-- A warning below the limit counts one more, and is told with the count.
warn_below :
    (s : Settings) (chat_id : ℤ) (user_id : ℕ) (table : Table)
    → db_warns true chat_id user_id table + 1 < s.warn_limit
    → (db_warns true chat_id user_id (add_warn true s chat_id user_id table).0
        ≡ db_warns true chat_id user_id table + 1)
      × ((add_warn true s chat_id user_id table).1
          ≡ told_warning user_id (db_warns true chat_id user_id table + 1) s.warn_limit ∷ [])
unfolding add_warn db_warns
warn_below s chat_id user_id table h = ground (
  arith,
  get-put_self (chat_id, user_id)
      (elim (get (chat_id, user_id) table) [ none ↦ 1 | some old ↦ old + 1 ]) table,
)

warn_at_limit :
    (s : Settings) (chat_id : ℤ) (user_id : ℕ) (table : Table)
    → s.warn_limit ≤ db_warns true chat_id user_id table + 1
    → ((add_warn true s chat_id user_id table).1
        ≡ warn_calls s s.warn_action user_id ++ (told_limit user_id s.warn_limit ∷ []))
      × (db_warns true chat_id user_id (add_warn true s chat_id user_id table).0 ≡ 0)
unfolding add_warn db_warns
warn_at_limit s chat_id user_id table h =
    let count : ℕ = elim (get (chat_id, user_id) table) [ none ↦ 1 | some old ↦ old + 1 ] in
    (
      ground arith,
      ground (arith, get-pop_self (chat_id, user_id) (put (chat_id, user_id) count table)),
    )

db_warns-warn_times :
    (k : ℕ) (s : Settings) (chat_id : ℤ) (user_id : ℕ) (table : Table)
    → db_warns true chat_id user_id table ≡ 0
    → k < s.warn_limit
    → db_warns true chat_id user_id (warn_times k s chat_id user_id table) ≡ k
unfolding warn_times
db_warns-warn_times zero s chat_id user_id table clean h = clean
db_warns-warn_times (suc k) s chat_id user_id table clean h =
    let before = db_warns-warn_times k s chat_id user_id table clean (omega arith) in
    (warn_below s chat_id user_id (warn_times k s chat_id user_id table)
      (rw before (omega arith))).0
    ∙ ap (λ n. n + 1) before
    ∙ omega arith

-- A user without warnings gets `limit` warnings in a row, on a database that works: each one below
-- the limit is only told, with its number; the last one is followed by the action of the settings,
-- and the count starts again at 0.
pub warn_times-limit :
    (s : Settings) (chat_id : ℤ) (user_id : ℕ) (table : Table) (n : ℕ)
    → db_warns true chat_id user_id table ≡ 0
    → s.warn_limit ≡ suc n
    → ((k : ℕ)
        → k < n
        → (add_warn true s chat_id user_id (warn_times k s chat_id user_id table)).1
          ≡ told_warning user_id (k + 1) s.warn_limit ∷ [])
      × ((add_warn true s chat_id user_id (warn_times n s chat_id user_id table)).1
          ≡ warn_calls s s.warn_action user_id ++ (told_limit user_id s.warn_limit ∷ []))
      × (db_warns true chat_id user_id (warn_times (suc n) s chat_id user_id table) ≡ 0)
unfolding warn_times
warn_times-limit s chat_id user_id table n clean limit =
    let last = db_warns-warn_times n s chat_id user_id table clean (omega (arith, limit)) in
    let (told, reset) =
      warn_at_limit s chat_id user_id (warn_times n s chat_id user_id table)
        (omega (arith, limit, last)) in
    (
      λ k h.
          let before = db_warns-warn_times k s chat_id user_id table clean (omega (arith, limit)) in
          rw before at
            (warn_below s chat_id user_id (warn_times k s chat_id user_id table)
              (omega (arith, limit, before))).1,
      told,
      reset,
    )
