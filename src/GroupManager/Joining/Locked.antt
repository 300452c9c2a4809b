-- ===== src/GroupManager/Joining/Locked.antt =====
-- group_manager.py: what happens to the lock of a chat after a raid.
use add_members.Base.{
  ℕ, ◌+◌, ◌*◌, ◌≡◌, ◌≢◌, ◌<◌, refl, sym, ◌∙◌, Bool, true, false, ◌&&◌, List, [], ◌∷◌, Text, get-put,
  get-put_self, get-pop, ℤ, int_eq, nat_eq, pair_eq, nat_beq, seconds, if◌then◌else◌, All, arith,
  any, Bool-cases, inl, inr,
}
use add_members.GroupManager.Joining.{
  Settings, Kick, State, Outside, Call, lock_of, detect_raid, screen, handle_new_member,
  handle_leave, kick_later, on_captcha, cb_unlock,
}
use add_members.GroupManager.Joining.Raids.{
  is_lock, screen_unlocked, lock_of_same, handle_new_member-locked,
}

-- What changes the state, each with its arguments.
pub data Event : Type 0 where
  joins : Settings → ℤ → (me : ℕ) → List (ℕ × Outside) → Event
  leaves : Settings → ℤ → (me left : ℕ) → Event
  presses : ℤ → (uid : ℕ) → Text → (from_user : ℕ) → Event
  wakes : Kick → Event
  unlocks : (admin opens : Bool) → ℤ → Event

-- The state afterwards, and the calls.
unfoldable pub step : Event → State → State × List Call
unfolding handle_new_member handle_leave on_captcha kick_later cb_unlock
step (joins s chat_id me users) st = handle_new_member s chat_id me users st
step (leaves s chat_id me left) st = handle_leave s chat_id me left st
step (presses chat_id uid token from_user) st =
    let (st', calls, _) = on_captcha chat_id uid token from_user st in (st', calls)
step (wakes kick) st = kick_later kick st
step (unlocks admin opens chat_id) st = cb_unlock admin opens chat_id st

unfoldable pub run : List Event → State → State
unfolding step
run [] st = st
run (event ∷ events) st = run events (step event st).0

-- New members of this chat.
abbrev pub joins_chat : ℤ → Event → Bool
joins_chat chat_id (joins s c me users) = int_eq.same c chat_id
joins_chat chat_id _ = false

-- Some new members of this chat make the bot lock it.
unfoldable pub locks_again : ℤ → List Event → State → Bool
unfolding step
locks_again chat_id [] st = false
locks_again chat_id (event ∷ events) st =
    let later = locks_again chat_id events (step event st).0 in
    if joins_chat chat_id event && any is_lock (step event st).1 then true else later

-- The event is no press of an admin that opens this chat.
abbrev pub Keeps : ℤ → Event → Type 0
Keeps chat_id (unlocks admin opens c) = (admin && opens && int_eq.same c chat_id) ≡ false
Keeps chat_id _ = Unit {0}

detect_raid_other :
    (s : Settings) (chat_id c : ℤ) (now uid : ℕ) (st : State)
    → int_eq.same c chat_id ≡ false
    → lock_of chat_id (detect_raid s c now uid st).0 ≡ lock_of chat_id st
unfolding detect_raid
detect_raid_other s chat_id c now uid st h =
    ground
      (arith, h, get-put c chat_id (now + seconds (s.raid_lock_minutes * 60)) st.raid_lock_until)

handle_new_member_other :
    (s : Settings) (chat_id c : ℤ) (me : ℕ) (users : List (ℕ × Outside)) (st : State)
    → int_eq.same c chat_id ≡ false
    → lock_of chat_id (handle_new_member s c me users st).0 ≡ lock_of chat_id st
unfolding handle_new_member
handle_new_member_other s chat_id c me [] st h = refl
handle_new_member_other s chat_id c me ((uid, out) ∷ users) st h =
    let before : State × Bool =
      if s.raid_protection then detect_raid s c out.now uid st else (st, false) in
    let same : lock_of chat_id before.0 ≡ lock_of chat_id st = elim (Bool-cases s.raid_protection) [
      | inl e ↦ rw e (detect_raid_other s chat_id c out.now uid st h)
      | inr e ↦ rw e refl
    ] in
    let after : State = (screen s out c uid before.0).0 in
    let kept : lock_of chat_id after ≡ lock_of chat_id before.0 =
      lock_of_same chat_id after before.0 (screen_unlocked s out c uid before.0).1 in
    let skipped = handle_new_member_other s chat_id c me users st h in
    let later = handle_new_member_other s chat_id c me users after h in
    elim (Bool-cases (nat_beq uid me)) [
      | inl e ↦ rw (e, handle_new_member) skipped
      | inr e ↦ elim (Bool-cases before.1) [
        | inl f ↦ rw (e, f, handle_new_member) same
        | inr f ↦ rw (e, f, handle_new_member) (later ∙ kept ∙ same)
      ]
    ]

step-lock_of :
    (chat_id : ℤ) (event : Event) (st : State)
    → Keeps chat_id event
    → lock_of chat_id st ≢ 0
    → (lock_of chat_id (step event st).0 ≡ lock_of chat_id st)
      × ((joins_chat chat_id event && any is_lock (step event st).1) ≡ false)
unfolding step
step-lock_of chat_id (joins s c me users) st k h = elim (Bool-cases (int_eq.same c chat_id)) [
  | inl e ↦
      let at : c ≡ chat_id = (int_eq.same_iff c chat_id).0 e in
      let locked : lock_of c st ≢ 0 = rw at h in
      let (quiet, kept) = handle_new_member-locked s c me users st locked in
      (ground (arith, kept), ground (arith, quiet))
  | inr e ↦ (handle_new_member_other s chat_id c me users st e, ground (arith, e))
]
step-lock_of chat_id (leaves s c me left) st k h = (ground arith, refl)
step-lock_of chat_id (presses c uid token from_user) st k h = (ground arith, refl)
step-lock_of chat_id (wakes kick) st k h = (ground arith, refl)
step-lock_of chat_id (unlocks admin opens c) st k h =
    (ground (arith, k, get-pop c chat_id st.raid_lock_until), refl)

run-lock_of :
    (chat_id : ℤ) (events : List Event) (st : State)
    → All (Keeps chat_id) events
    → lock_of chat_id st ≢ 0
    → (lock_of chat_id (run events st) ≡ lock_of chat_id st)
      × (locks_again chat_id events st ≡ false)
unfolding run locks_again
run-lock_of chat_id [] st k h = (refl, refl)
run-lock_of chat_id (event ∷ events) st k h =
    let (kept, quiet) = step-lock_of chat_id event st k.0 h in
    let (later, silent) =
      run-lock_of chat_id events (step event st).0 k.1 (λ e. h (sym kept ∙ e)) in
    (later ∙ kept, rw quiet silent)

detect_raid-lock_of :
    (s : Settings) (chat_id : ℤ) (now uid : ℕ) (st : State)
    → (detect_raid s chat_id now uid st).1 ≡ true
    → lock_of chat_id (detect_raid s chat_id now uid st).0
      ≡ now + seconds (s.raid_lock_minutes * 60)
unfolding detect_raid
detect_raid-lock_of s chat_id now uid st h =
    ground
      (arith, h, get-put_self chat_id (now + seconds (s.raid_lock_minutes * 60)) st.raid_lock_until)

-- A chat is locked once. After a raid was detected in a chat at a time above 0, and through any
-- joins (of this and of other chats, at any times and with any settings), leaves, presses of
-- captchas, tasks that wake and presses of the button to unlock, as long as no admin opens this
-- chat by that button: the entry of the chat stays what the raid made it, and no join of the chat
-- makes the bot lock it again, also when the time of the lock is over.
pub run-locked :
    (s : Settings) (chat_id : ℤ) (now uid : ℕ) (st : State) (events : List Event)
    → 0 < now
    → (detect_raid s chat_id now uid st).1 ≡ true
    → All (Keeps chat_id) events
    → (lock_of chat_id (run events (detect_raid s chat_id now uid st).0)
        ≡ now + seconds (s.raid_lock_minutes * 60))
      × (locks_again chat_id events (detect_raid s chat_id now uid st).0 ≡ false)
run-locked s chat_id now uid st events positive raid keeps =
    let until = detect_raid-lock_of s chat_id now uid st raid in
    let (kept, silent) =
      run-lock_of chat_id events (detect_raid s chat_id now uid st).0 keeps
        (λ e. omega (arith, until, e, positive)) in
    (kept ∙ until, silent)
