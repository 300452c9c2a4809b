-- ===== src/GroupManager/Messages/Ignored.antt =====
-- group_manager.py, `_on_msg`: messages in a locked chat, and a setting that is ignored.
use add_members.Base.{
  ℕ, ◌≡◌, ◌<◌, ◌⊎◌, refl, Bool, true, false, not, ◌||◌, none, some, [], ◌∷◌, ℤ, int_eq, nat_eq,
  pair_eq, if◌then◌else◌, arith, Option-cases, inl, inr,
}
use add_members.GroupManager.Joining.{lock_of}
use add_members.GroupManager.Messages.{
  Library, Settings, Message, Found, clean, violation, raised, deleted, State, violations, moderate,
  on_msg, follow, MessageLog, has_captcha,
}
use add_members.GroupManager.Messages.Gate.{action_of}

-- While a chat is locked after a raid, and as long as the captcha of the author waits, every message
-- of a user who is no admin is deleted and nothing else is done; admins, anonymous admins and chats
-- without moderation are left alone.
pub on_msg-locked :
    (lib : Library) (works : Bool) (s : Settings) (admin : Bool) (now uid : ℕ) (m : Message)
    (st : State)
    → m.from_user ≡ some uid
    → ((now < lock_of m.chat_id st.joining)
        ⊎ ((s.captcha ≡ true) × (has_captcha m.chat_id uid st ≡ true)))
    → on_msg lib works s admin now m st ≡ (
      st,
      if not s.enabled
            || admin
            || elim m.sender_chat [ none ↦ false | some id ↦ int_eq.same id m.chat_id ]
          then []
          else deleted ∷ [],
    )
unfolding on_msg moderate
on_msg-locked lib works s admin now uid m st e (inl h) = ground arith
on_msg-locked lib works s admin now uid m st e (inr (h, k)) = ground arith

follow_lock_profanity :
    (works b : Bool) (s : Settings) (uid : ℕ) (chat_id : ℤ) (st : State) (log : MessageLog)
    (found : Found)
    → follow works (record s { lock_profanity = b }) uid chat_id st log found
      ≡ follow works s uid chat_id st log found
unfolding follow
follow_lock_profanity works b s uid chat_id st log clean = refl
follow_lock_profanity works b s uid chat_id st log raised = refl
follow_lock_profanity works b s uid chat_id st log (violation k) =
    rw (action_of s k, action_of (record s { lock_profanity = b }) k) refl

violations_lock_profanity :
    (lib : Library) (b : Bool) (s : Settings) (now uid : ℕ) (m : Message) (log : MessageLog)
    → violations lib (record s { lock_profanity = b }) now uid m log
      ≡ violations lib s now uid m log
unfolding violations
violations_lock_profanity lib b s now uid m log = refl

moderate_lock_profanity :
    (lib : Library) (works b : Bool) (s : Settings) (now uid : ℕ) (m : Message) (st : State)
    → moderate lib works (record s { lock_profanity = b }) now uid m st
      ≡ moderate lib works s now uid m st
unfolding moderate
moderate_lock_profanity lib works b s now uid m st =
    let found = violations lib s now uid m st.log in
    ground (
      arith,
      violations_lock_profanity lib b s now uid m st.log,
      follow_lock_profanity works b s uid m.chat_id st found.0 found.1,
    )

-- The setting `lock_profanity` has no effect: whatever it is, the same is done.
pub on_msg-lock_profanity :
    (lib : Library) (works b : Bool) (s : Settings) (admin : Bool) (now : ℕ) (m : Message)
    (st : State)
    → on_msg lib works (record s { lock_profanity = b }) admin now m st
      ≡ on_msg lib works s admin now m st
unfolding on_msg
on_msg-lock_profanity lib works b s admin now m st = elim (Option-cases m.from_user) [
  | inl e ↦ ground arith
  | inr (uid, e) ↦ ground (arith, moderate_lock_profanity lib works b s now uid m st)
]
