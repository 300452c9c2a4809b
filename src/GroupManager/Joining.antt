-- ===== src/GroupManager/Joining.antt =====
-- group_manager.py: new members. Raids, the bank of known spammers (CAS), the captcha, leaving.
-- Settings are those of the chat. A clock reading goes with each new member; whether a call of the
-- client raises is an argument where the code goes on differently.
mod Examples
pub mod Raids
pub mod Captchas
pub mod Locked
use add_members.Base.{
  ℕ, ◌+◌, ◌*◌, Bool, true, false, not, ◌&&◌, ◌||◌, Option, none, some, List, [], ◌∷◌, ◌++◌, Text,
  Dict, get, put, pop, ℤ, int_eq, nat_eq, pair_eq, text_eq, nat_beq, leb, length, seconds,
  if◌then◌else◌, contains,
}
use add_members.GroupManager.Window.{drop_old}

pub record Settings : Type 0 where
  pub raid_protection : Bool
  pub raid_window : ℕ
  pub raid_joins : ℕ
  pub raid_lock_minutes : ℕ
  pub cas_check : Bool
  pub cas_bans : Bool
  pub captcha : Bool
  pub welcome : Bool
  pub goodbye : Bool

pub record Captcha : Type 0 where
  pub token : Text
  pub at : ℕ

-- A task of `_kick_later` that sleeps until it is due.
pub record Kick : Type 0 where
  pub due : ℕ
  pub chat_id : ℤ
  pub user_id : ℕ

-- `_join_log`, `_raid_lock_until`, `_pending_captcha` and the sleeping tasks.
pub record State : Type 0 where
  pub join_log : Dict ℤ (List (ℕ × ℕ))
  pub raid_lock_until : Dict ℤ ℕ
  pub pending_captcha : Dict (ℤ × ℕ) Captcha
  pub kicks : List Kick

-- The calls of the client.
pub data Call : Type 0 where
  locked_chat opened_chat told_raid : Call
  banned kicked unbanned told_cas restricted allowed asked_captcha welcomed told_late told_verified
        said_goodbye :
      (user_id : ℕ) → Call

-- What the outside does for one new member: the clock, whether CAS lists them, whether the replies
-- are sent, and the random token.
pub record Outside : Type 0 where
  pub now : ℕ
  pub cas_listed : Bool
  pub replies : Bool
  pub token : Text

abbrev pub captcha_ttl : ℕ
captcha_ttl = seconds 180

-- `_join_log[chat_id]`, a defaultdict.
abbrev pub log_of : ℤ → State → List (ℕ × ℕ)
log_of chat_id st = elim (get chat_id st.join_log) [ none ↦ [] | some dq ↦ dq ]

-- `_raid_lock_until.get(chat_id, 0)`
abbrev pub lock_of : ℤ → State → ℕ
lock_of chat_id st = elim (get chat_id st.raid_lock_until) [ none ↦ 0 | some until ↦ until ]

-- The deque after the `append` and the `while`.
abbrev pub logged : Settings → ℤ → ℕ → ℕ → State → List (ℕ × ℕ)
logged s chat_id now uid st =
    drop_old (λ (ts, _). ts) now (seconds s.raid_window) (log_of chat_id st ++ ((now, uid) ∷ []))

-- The part on raids: the flag says that `handle_new_member` returns.
unfoldable pub detect_raid : Settings → ℤ → ℕ → ℕ → State → State × Bool
unfolding drop_old
detect_raid s chat_id now uid st =
    let dq = logged s chat_id now uid st in
    let seen : State = record st { join_log = put chat_id dq st.join_log } in
    if nat_beq (lock_of chat_id st) 0 && leb s.raid_joins (length dq)
    then (
      record seen {
        raid_lock_until =
            put chat_id (now + seconds (s.raid_lock_minutes * 60)) seen.raid_lock_until;
      },
      true,
    )
    else (seen, false)

-- The part on the captcha. If the message cannot be sent, no task is made.
unfoldable pub ask_captcha : Outside → ℤ → ℕ → State → State × List Call
ask_captcha out chat_id uid st =
    let asked : State = record st {
      pending_captcha =
          put (chat_id, uid) (record { token = out.token; at = out.now }) st.pending_captcha;
    } in
    if out.replies
    then (
      record asked {
        kicks =
            asked.kicks
            ++ (record { due = out.now + captcha_ttl; chat_id = chat_id; user_id = uid } ∷ []);
      },
      restricted uid ∷ asked_captcha uid ∷ [],
    )
    else (asked, restricted uid ∷ [])

-- After CAS: the captcha, or the welcome.
unfoldable pub admit : Settings → Outside → ℤ → ℕ → State → State × List Call
unfolding ask_captcha
admit s out chat_id uid st =
    if s.captcha
    then ask_captcha out chat_id uid st
    else if s.welcome && out.replies
    then (st, welcomed uid ∷ [])
    else (st, [])

-- What CAS says of a new member. If the reply on it raises, the member is treated like any other.
unfoldable pub screen : Settings → Outside → ℤ → ℕ → State → State × List Call
unfolding admit
screen s out chat_id uid st =
    let removal : Call = if s.cas_bans then banned uid else kicked uid in
    let (st', calls) = admit s out chat_id uid st in
    if s.cas_check && out.cas_listed
    then if out.replies then (st, removal ∷ told_cas uid ∷ []) else (st', removal ∷ calls)
    else (st', calls)

-- `handle_new_member`: the loop over the new members, each with its outside.
unfoldable pub handle_new_member : Settings → ℤ → ℕ → List (ℕ × Outside) → State → State × List Call
unfolding detect_raid screen
handle_new_member s chat_id me [] st = (st, [])
handle_new_member s chat_id me ((uid, out) ∷ users) st =
    let skipped = handle_new_member s chat_id me users st in
    let (seen, raid) =
      if s.raid_protection then detect_raid s chat_id out.now uid st else (st, false) in
    let (st', calls) = screen s out chat_id uid seen in
    let (st'', later) = handle_new_member s chat_id me users st' in
    if nat_beq uid me
    then skipped
    else if raid
    then (seen, locked_chat ∷ (if out.replies then told_raid ∷ [] else []))
    else (st'', calls ++ later)

-- `_kick_later`, once it has slept.
unfoldable pub kick_later : Kick → State → State × List Call
kick_later kick st = elim (get (kick.chat_id, kick.user_id) st.pending_captcha) [
  | none ↦ (st, [])
  | some _ ↦ (
    record st { pending_captcha = pop (kick.chat_id, kick.user_id) st.pending_captcha },
    banned kick.user_id ∷ unbanned kick.user_id ∷ told_late kick.user_id ∷ [],
  )
]

-- `handle_leave`: `left` is the member who left.
unfoldable pub handle_leave : Settings → ℤ → ℕ → ℕ → State → State × List Call
handle_leave s chat_id me left st = (
  record st { pending_captcha = pop (chat_id, left) st.pending_captcha },
  if s.goodbye && not (nat_beq left me) then said_goodbye left ∷ [] else [],
)

-- The answer to the button of a captcha.
pub data Verdict : Type 0 where
  late not_yours verified : Verdict

-- `_on_captcha`: the button names a user and a token, and `from_user` pressed it.
unfoldable pub on_captcha : ℤ → ℕ → Text → ℕ → State → State × List Call × Verdict
on_captcha chat_id uid token from_user st = elim (get (chat_id, uid) st.pending_captcha) [
  | none ↦ (st, [], late)
  | some pend ↦
      if not (text_eq.same pend.token token)
      then (st, [], late)
      else if not (nat_beq from_user uid)
      then (st, [], not_yours)
      else (
        record st { pending_captcha = pop (chat_id, uid) st.pending_captcha },
        allowed uid ∷ told_verified uid ∷ [],
        verified,
      )
]

-- `_cb_unlock`, pressed by someone: whether they are an admin, and whether the chat can be opened.
unfoldable pub cb_unlock : Bool → Bool → ℤ → State → State × List Call
cb_unlock admin opens chat_id st =
    if admin && opens
    then (record st { raid_lock_until = pop chat_id st.raid_lock_until }, opened_chat ∷ [])
    else (st, [])
