-- ===== src/GroupManager/Joining/Captchas.antt =====
-- The life of a captcha: asked, solved, left, or too late.
use add_members.Base.{
  ℕ, ◌+◌, ◌≡◌, ◌<◌, ◌↔◌, refl, Bool-cases, Any, Any-append_left, Any-append_right, true, Option,
  none, some, [], ◌∷◌, Text, get, get-put_self, get-pop_self, ℤ, int_eq, nat_eq, pair_eq, text_eq,
  text_beq_iff, nat_beq_iff, arith, Option-cases, inl, inr,
}
use add_members.GroupManager.Joining.{
  Settings, Captcha, Kick, State, Outside, ask_captcha, kick_later, handle_leave, on_captcha,
  captcha_ttl, verified, banned, unbanned, told_late,
}

abbrev pub pending : ℤ → ℕ → State → Option Captcha
pending chat_id uid st = get (chat_id, uid) st.pending_captcha

-- A press of the button is accepted exactly when a captcha of that user waits in the chat, the
-- button has its token, and the user pressed it.
pub on_captcha-verified :
    (chat_id : ℤ) (uid : ℕ) (token : Text) (from_user : ℕ) (st : State)
    → ((on_captcha chat_id uid token from_user st).2 ≡ verified) ↔ (
        (pend : Captcha) × (pending chat_id uid st ≡ some pend)
        × (pend.token ≡ token)
        × (from_user ≡ uid))
unfolding on_captcha
on_captcha-verified chat_id uid token from_user st = (
  λ h. forth h,
  λ (pend, e, f, g). ground (arith, text_beq_iff pend.token token, nat_beq_iff from_user uid),
)
  where
    forth :
        (on_captcha chat_id uid token from_user st).2 ≡ verified
        → (pend : Captcha) × (pending chat_id uid st ≡ some pend)
          × (pend.token ≡ token)
          × (from_user ≡ uid)
    forth h = elim (Option-cases (pending chat_id uid st)) [
      | inl e ↦ absurd (ground (arith, h, e))
      | inr (pend, e) ↦ (
        pend,
        e,
        ground (arith, h, e, text_beq_iff pend.token token),
        ground (arith, h, e, nat_beq_iff from_user uid),
      )
    ]

-- An accepted press ends the captcha and any other press changes nothing.
on_captcha_pending :
    (chat_id : ℤ) (uid : ℕ) (token : Text) (from_user : ℕ) (st : State)
    → (on_captcha chat_id uid token from_user st).2 ≡ verified
    → pending chat_id uid (on_captcha chat_id uid token from_user st).0 ≡ none
unfolding on_captcha
on_captcha_pending chat_id uid token from_user st h =
    ground (arith, get-pop_self (chat_id, uid) st.pending_captcha)

pub get-ask_captcha :
    (out : Outside) (chat_id : ℤ) (uid : ℕ) (st : State)
    → pending chat_id uid (ask_captcha out chat_id uid st).0
      ≡ some (record { token = out.token; at = out.now })
unfolding ask_captcha
get-ask_captcha out chat_id uid st = ground (
  arith,
  get-put_self (chat_id, uid) (record { token = out.token; at = out.now }) st.pending_captcha,
)

kick_later-none :
    (kick : Kick) (st : State)
    → pending kick.chat_id kick.user_id st ≡ none
    → kick_later kick st ≡ (st, [])
unfolding kick_later
kick_later-none kick st h = ground arith

kick_later-some :
    (kick : Kick) (pend : Captcha) (st : State)
    → pending kick.chat_id kick.user_id st ≡ some pend
    → ((kick_later kick st).1
        ≡ banned kick.user_id ∷ unbanned kick.user_id ∷ told_late kick.user_id ∷ [])
      × (pending kick.chat_id kick.user_id (kick_later kick st).0 ≡ none)
unfolding kick_later
kick_later-some kick pend st h =
    (ground arith, ground (arith, get-pop_self (kick.chat_id, kick.user_id) st.pending_captcha))

-- A member who is asked and presses their own button is accepted, and the task that sleeps for this
-- captcha does nothing then; a member who never presses is banned and unbanned by it.
pub ask_captcha-kick_later :
    (out : Outside) (chat_id : ℤ) (uid : ℕ) (due : ℕ) (st : State)
    → let kick : Kick = record { due = due; chat_id = chat_id; user_id = uid } in
      let asked = (ask_captcha out chat_id uid st).0 in
      let solved = on_captcha chat_id uid out.token uid asked in
      (solved.2 ≡ verified)
      × (kick_later kick solved.0 ≡ (solved.0, []))
      × ((kick_later kick asked).1 ≡ banned uid ∷ unbanned uid ∷ told_late uid ∷ [])
ask_captcha-kick_later out chat_id uid due st =
    let kick : Kick = record { due = due; chat_id = chat_id; user_id = uid } in
    let asked = (ask_captcha out chat_id uid st).0 in
    let waits = get-ask_captcha out chat_id uid st in
    let solved =
      (on_captcha-verified chat_id uid out.token uid asked).1
        (record { token = out.token; at = out.now }, waits, refl, refl) in
    (
      solved,
      kick_later-none kick (on_captcha chat_id uid out.token uid asked).0
          (on_captcha_pending chat_id uid out.token uid asked solved),
      (kick_later-some kick (record { token = out.token; at = out.now }) asked waits).0,
    )

abbrev pub Sleeps : Kick → State → Type 0
Sleeps kick st = Any (λ k. k ≡ kick) st.kicks

-- The task of a captcha whose message was sent.
abbrev pub kick_of : Outside → ℤ → ℕ → Kick
kick_of out chat_id uid = record { due = out.now + captcha_ttl; chat_id = chat_id; user_id = uid }

Sleeps-ask_captcha :
    (out : Outside) (chat_id : ℤ) (uid : ℕ) (st : State)
    → out.replies ≡ true
    → Sleeps (kick_of out chat_id uid) (ask_captcha out chat_id uid st).0
unfolding ask_captcha
Sleeps-ask_captcha out chat_id uid st h =
    rw (h, ask_captcha)
      (Any-append_right (λ k. k ≡ kick_of out chat_id uid) st.kicks (kick_of out chat_id uid ∷ [])
        (inl refl))

Sleeps-ask_again :
    (kick : Kick) (out : Outside) (chat_id : ℤ) (uid : ℕ) (st : State)
    → Sleeps kick st
    → Sleeps kick (ask_captcha out chat_id uid st).0
unfolding ask_captcha
Sleeps-ask_again kick out chat_id uid st h = elim (Bool-cases out.replies) [
  | inl e ↦
      rw (e, ask_captcha)
        (Any-append_left (λ k. k ≡ kick) st.kicks (kick_of out chat_id uid ∷ []) h)
  | inr e ↦ rw (e, ask_captcha) h
]

Sleeps-handle_leave :
    (kick : Kick) (s : Settings) (chat_id : ℤ) (me uid : ℕ) (st : State)
    → Sleeps kick st
    → Sleeps kick (handle_leave s chat_id me uid st).0
unfolding handle_leave
Sleeps-handle_leave kick s chat_id me uid st h = h

-- The task of an old captcha acts on a new one. A member is asked by a message that is sent, leaves,
-- joins again within the three minutes and is asked again. Then no captcha waited in between, the
-- task of the first one is among the sleeping tasks and is due before the second one is over; and if
-- it wakes in this state, it bans the member and drops the second captcha.
pub kick_later-rejoined :
    (s : Settings) (first second : Outside) (chat_id : ℤ) (me uid : ℕ) (st : State)
    → first.replies ≡ true
    → first.now < second.now
    → second.now < first.now + captcha_ttl
    → let kick : Kick = kick_of first chat_id uid in
      let left = (handle_leave s chat_id me uid (ask_captcha first chat_id uid st).0).0 in
      let again = (ask_captcha second chat_id uid left).0 in
      (pending chat_id uid left ≡ none)
      × Sleeps kick again
      × ((second.now < kick.due) × (kick.due < second.now + captcha_ttl))
      × (pending chat_id uid again ≡ some (record { token = second.token; at = second.now }))
      × ((kick_later kick again).1 ≡ banned uid ∷ unbanned uid ∷ told_late uid ∷ [])
      × (pending chat_id uid (kick_later kick again).0 ≡ none)
unfolding handle_leave
kick_later-rejoined s first second chat_id me uid st sent h soon =
    let kick : Kick = kick_of first chat_id uid in
    let asked = (ask_captcha first chat_id uid st).0 in
    let left = (handle_leave s chat_id me uid asked).0 in
    let again = (ask_captcha second chat_id uid left).0 in
    let waits = get-ask_captcha second chat_id uid left in
    let kicked =
      kick_later-some kick (record { token = second.token; at = second.now }) again waits in
    (
      get-pop_self (chat_id, uid) asked.pending_captcha,
      Sleeps-ask_again kick second chat_id uid left (
          Sleeps-handle_leave kick s chat_id me uid asked
            (Sleeps-ask_captcha first chat_id uid st sent)),
      (omega (arith, soon), omega (arith, h)),
      waits,
      kicked.0,
      kicked.1,
    )
