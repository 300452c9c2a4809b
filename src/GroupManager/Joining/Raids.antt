-- ===== src/GroupManager/Joining/Raids.antt =====
-- When a raid is detected, and that it is detected once.
use add_members.Base.{
  ℕ, ◌≡◌, ◌≢◌, ◌≤◌, refl, sym, ◌∙◌, Bool, true, false, ◌&&◌, List, [], ◌∷◌, ◌++◌, get-put_self, ℤ,
  int_eq, nat_eq, pair_eq, nat_beq, leb, length, seconds, if◌then◌else◌, All, All-append, keep_if,
  keep_if-All_of, arith, any, get-pop_self, Bool-cases, inl, inr,
}
use add_members.GroupManager.Window.{
  drop_old-keep_if, drop_old-IsDated, append-IsDated, IsDated, is_recent,
}
use add_members.GroupManager.Joining.{
  Settings, State, Outside, Call, locked_chat, log_of, lock_of, logged, detect_raid, admit, screen,
  handle_new_member, cb_unlock,
}

abbrev pub date_of : ℕ × ℕ → ℕ
date_of (ts, _) = ts

-- The log of a chat is in the order of its dates, and none is later than `now`.
abbrev pub IsLog : ℕ → List (ℕ × ℕ) → Type 0
IsLog now dq = IsDated date_of dq × All (λ x. date_of x ≤ now) dq

logged-keep_if :
    (s : Settings) (chat_id : ℤ) (now uid : ℕ) (st : State)
    → IsLog now (log_of chat_id st)
    → logged s chat_id now uid st
      ≡ keep_if
          (is_recent date_of now (seconds s.raid_window))
          (log_of chat_id st ++ ((now, uid) ∷ []))
logged-keep_if s chat_id now uid st h =
    drop_old-keep_if date_of now (seconds s.raid_window) (log_of chat_id st ++ ((now, uid) ∷ []))
      (append-IsDated date_of (now, uid) (log_of chat_id st) h.0 h.1)

-- The joins of the window that ends now, the new one included.
abbrev pub recent_joins : Settings → ℤ → ℕ → ℕ → State → List (ℕ × ℕ)
recent_joins s chat_id now uid st =
    keep_if (is_recent date_of now (seconds s.raid_window)) (log_of chat_id st ++ ((now, uid) ∷ []))

-- The log is a sliding window. On a log in the order of its dates, a raid is detected exactly when
-- the chat has no lock and at least `raid_joins` members joined in the last `raid_window` seconds,
-- the new one included; the log then holds exactly these joins, and is again in order.
pub detect_raid-recent_joins :
    (s : Settings) (chat_id : ℤ) (now uid : ℕ) (st : State)
    → IsLog now (log_of chat_id st)
    → ((detect_raid s chat_id now uid st).1
        ≡ nat_beq (lock_of chat_id st) 0
          && leb s.raid_joins (length (recent_joins s chat_id now uid st)))
      × (log_of chat_id (detect_raid s chat_id now uid st).0 ≡ recent_joins s chat_id now uid st)
      × IsLog now (log_of chat_id (detect_raid s chat_id now uid st).0)
unfolding detect_raid
detect_raid-recent_joins s chat_id now uid st h =
    let log = log_of chat_id st ++ ((now, uid) ∷ []) in
    let same = logged-keep_if s chat_id now uid st h in
    let now_log : log_of chat_id (detect_raid s chat_id now uid st).0
        ≡ recent_joins s chat_id now uid st =
      ground (arith, same, get-put_self chat_id (logged s chat_id now uid st) st.join_log) in
    (
      ground (arith, same),
      now_log,
      rw now_log (
        rw (← same) (
            drop_old-IsDated date_of now (seconds s.raid_window) log
              (append-IsDated date_of (now, uid) (log_of chat_id st) h.0 h.1)),
        keep_if-All_of (λ x. date_of x ≤ now) (is_recent date_of now (seconds s.raid_window)) log
            (All-append (λ x. date_of x ≤ now) (log_of chat_id st) ((now, uid) ∷ []) h.1
              (omega arith, tt)),
      ),
    )

abbrev pub is_lock : Call → Bool
is_lock locked_chat = true
is_lock _ = false

any_lock_append :
    (xs ys : List Call) → any is_lock (xs ++ ys) ≡ (if any is_lock xs then true else any is_lock ys)
any_lock_append [] ys = refl
any_lock_append (x ∷ xs) ys = ground (arith, any_lock_append xs ys)

admit_unlocked :
    (s : Settings) (out : Outside) (chat_id : ℤ) (uid : ℕ) (st : State)
    → (any is_lock (admit s out chat_id uid st).1 ≡ false)
      × ((admit s out chat_id uid st).0.raid_lock_until ≡ st.raid_lock_until)
unfolding admit
admit_unlocked s out chat_id uid st = ground arith

pub screen_unlocked :
    (s : Settings) (out : Outside) (chat_id : ℤ) (uid : ℕ) (st : State)
    → (any is_lock (screen s out chat_id uid st).1 ≡ false)
      × ((screen s out chat_id uid st).0.raid_lock_until ≡ st.raid_lock_until)
unfolding screen
screen_unlocked s out chat_id uid st = ground (arith, admit_unlocked s out chat_id uid st)

detect_raid_locked :
    (s : Settings) (chat_id : ℤ) (now uid : ℕ) (st : State)
    → lock_of chat_id st ≢ 0
    → ((detect_raid s chat_id now uid st).1 ≡ false)
      × ((detect_raid s chat_id now uid st).0.raid_lock_until ≡ st.raid_lock_until)
unfolding detect_raid
detect_raid_locked s chat_id now uid st h = ground arith

pub lock_of_same :
    (chat_id : ℤ) (a b : State)
    → a.raid_lock_until ≡ b.raid_lock_until
    → lock_of chat_id a ≡ lock_of chat_id b
lock_of_same chat_id a b e = ground (arith, e)

-- What the loop does for one member while the chat has a lock.
while_locked :
    (s : Settings) (chat_id : ℤ) (me uid : ℕ) (out : Outside) (users : List (ℕ × Outside))
    (st : State)
    → lock_of chat_id st ≢ 0
    → (seen : State) × (seen.raid_lock_until ≡ st.raid_lock_until)
      × (handle_new_member s chat_id me ((uid, out) ∷ users) st ≡ (
          if nat_beq uid me then handle_new_member s chat_id me users st else (
            (handle_new_member s chat_id me users (screen s out chat_id uid seen).0).0,
            (screen s out chat_id uid seen).1
                ++ (handle_new_member s chat_id me users (screen s out chat_id uid seen).0).1,
          )))
unfolding handle_new_member
while_locked s chat_id me uid out users st h = elim (Bool-cases s.raid_protection) [
  | inl e ↦ (
    (detect_raid s chat_id out.now uid st).0,
    (detect_raid_locked s chat_id out.now uid st h).1,
    ground (arith, detect_raid_locked s chat_id out.now uid st h),
  )
  | inr e ↦ (st, refl, ground arith)
]

-- While a chat has an entry in `_raid_lock_until`, no raid is detected, whenever its members join
-- and whatever its settings: the entry stays and the chat is not locked again.
pub handle_new_member-locked :
    (s : Settings) (chat_id : ℤ) (me : ℕ) (users : List (ℕ × Outside)) (st : State)
    → lock_of chat_id st ≢ 0
    → (any is_lock (handle_new_member s chat_id me users st).1 ≡ false)
      × ((handle_new_member s chat_id me users st).0.raid_lock_until ≡ st.raid_lock_until)
unfolding handle_new_member
handle_new_member-locked s chat_id me [] st h = (refl, refl)
handle_new_member-locked s chat_id me ((uid, out) ∷ users) st h =
    let (seen, same, body) = while_locked s chat_id me uid out users st h in
    let (quiet, kept) = screen_unlocked s out chat_id uid seen in
    let skipped = handle_new_member-locked s chat_id me users st h in
    let still : lock_of chat_id (screen s out chat_id uid seen).0 ≢ 0 =
      λ e. h (lock_of_same chat_id st (screen s out chat_id uid seen).0 (sym (kept ∙ same)) ∙ e) in
    let later =
      handle_new_member-locked s chat_id me users (screen s out chat_id uid seen).0 still in
    rw body (
      ground (
        arith,
        skipped,
        later,
        quiet,
        kept,
        same,
        any_lock_append (screen s out chat_id uid seen).1
            (handle_new_member s chat_id me users (screen s out chat_id uid seen).0).1,
      ))

-- `_cb_unlock` by an admin ends the lock.
pub cb_unlock-lock_of :
    (chat_id : ℤ) (st : State) → lock_of chat_id (cb_unlock true true chat_id st).0 ≡ 0
unfolding cb_unlock
cb_unlock-lock_of chat_id st = ground (arith, get-pop_self chat_id st.raid_lock_until)
