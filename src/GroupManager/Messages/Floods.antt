-- ===== src/GroupManager/Messages/Floods.antt =====
-- When the flood check strikes.
use add_members.Base.{
  ℕ, ◌≡◌, ◌≢◌, ◌≤◌, ◌<◌, List, [], ◌∷◌, ◌++◌, get, get-put, get-put_self, ℤ, int_eq, nat_eq,
  pair_eq, pair_beq_iff, leb, length, seconds, if◌then◌else◌, All, keep_if, arith,
}
use add_members.GroupManager.Window.{drop_old, drop_old-keep_if, append-IsDated, IsDated, is_recent}
use add_members.GroupManager.Messages.{
  Settings, MessageLog, clean, violation, flood, times_of, check_flood,
}

-- The times of the messages of a user in the last `flood_time` seconds, the new one included.
abbrev pub recent_times : Settings → ℕ → ℤ → ℕ → MessageLog → List ℕ
recent_times s now chat_id uid log =
    keep_if (is_recent (λ t. t) now (seconds s.flood_time)) (times_of chat_id uid log ++ (now ∷ []))

logged :
    (s : Settings) (now : ℕ) (chat_id : ℤ) (uid : ℕ) (log : MessageLog)
    → IsDated (λ t. t) (times_of chat_id uid log)
    → All (λ t. t ≤ now) (times_of chat_id uid log)
    → drop_old (λ t. t) now (seconds s.flood_time) (times_of chat_id uid log ++ (now ∷ []))
      ≡ recent_times s now chat_id uid log
logged s now chat_id uid log d h =
    drop_old-keep_if (λ t. t) now (seconds s.flood_time) (times_of chat_id uid log ++ (now ∷ []))
      (append-IsDated (λ t. t) now (times_of chat_id uid log) d h)

-- On a log in the order of its times, the flood check strikes exactly when the user wrote
-- `flood_limit` messages or more in the last `flood_time` seconds, the new one included. The log of
-- the user then starts again empty, and otherwise holds these messages, fewer than the limit (if
-- the limit is not 0). The logs of all others stay as they are.
pub check_flood-recent_times :
    (s : Settings) (now : ℕ) (chat_id : ℤ) (uid : ℕ) (log : MessageLog)
    → IsDated (λ t. t) (times_of chat_id uid log)
    → All (λ t. t ≤ now) (times_of chat_id uid log)
    → ((check_flood s now chat_id uid log).1 ≡ (
        if leb s.flood_limit (length (recent_times s now chat_id uid log))
        then violation flood
        else clean))
      × (times_of chat_id uid (check_flood s now chat_id uid log).0 ≡ (
          if leb s.flood_limit (length (recent_times s now chat_id uid log))
          then []
          else recent_times s now chat_id uid log))
      × (1 ≤ s.flood_limit
          → length (times_of chat_id uid (check_flood s now chat_id uid log).0) < s.flood_limit)
      × ((other : ℤ × ℕ)
          → other ≢ (chat_id, uid)
          → get other (check_flood s now chat_id uid log).0 ≡ get other log)
unfolding check_flood
check_flood-recent_times s now chat_id uid log d h =
    let dq =
      drop_old (λ t. t) now (seconds s.flood_time) (times_of chat_id uid log ++ (now ∷ [])) in
    let same = logged s now chat_id uid log d h in
    let none_left = get-put_self (chat_id, uid) [] log in
    let kept = get-put_self (chat_id, uid) dq log in
    (
      ground (arith, same),
      ground (arith, same, none_left, kept),
      λ pos. ground (arith, same, none_left, kept),
      λ other ne. ground (
        arith,
        get-put (chat_id, uid) other [] log,
        get-put (chat_id, uid) other dq log,
        pair_beq_iff int_eq nat_eq (chat_id, uid) other,
      ),
    )
