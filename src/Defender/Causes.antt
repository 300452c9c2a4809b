-- ===== src/Defender/Causes.antt =====
-- defender.py: nobody is banned without a cause.
use add_members.Base.{
  ℕ, ◌+◌, ◌≡◌, ◌<◌, ◌⊎◌, refl, Bool, true, false, not, ◌&&◌, ◌||◌, some, List, [], ◌∷◌, map, Text,
  get, contains, nat_eq, text_eq, nat_beq, ltb, seconds, pop, Bool-cases, Option-cases, inl, inr,
  arith,
}
use add_members.Defender.{
  State, Joiner, Outside, Ending, reply, timeout, failure, Library, Message, max_quick_leave,
  discard, ban, is_young, joined, ask_captcha, on_join, captcha_ends, on_leave, is_idle, scan_one,
  scan, bg_scan, deploy_honeypot, monitor_message, monitor_callback, judge_profile,
}

abbrev pub is_banned : ℕ → State → Bool
is_banned uid st = contains uid st.banned_scrapers

-- What happens to the bot, one step for each.
pub data Event : Type 0 where
  joins : Outside → (now : ℕ) (admin : Bool) → Joiner → Event
  ends : (works : Bool) (uid : ℕ) → Ending → Event
  leaves : (works : Bool) (now uid : ℕ) → Event
  scans : (works : Bool) (now : ℕ) → (ℕ → Bool) → Event
  plants : (mode token : Text) → (List Text → Text) → Event
  writes : Library → (mode : Text) (now : ℕ) (admin : Bool) → Message → Event
  presses : (mode : Text) (admin : Bool) (uid : ℕ) → Text → Event

abbrev pub step : Event → State → State
step (joins out now admin user) st = (on_join out now admin user st).0
step (ends works uid ending) st = (captcha_ends works uid ending st).0
step (leaves works now uid) st = (on_leave works now uid st).0
step (scans works now is_admin) st = (bg_scan works now is_admin st).0
step (plants mode token popped) st = (deploy_honeypot mode token popped st).0
step (writes lib mode now admin m) st = (monitor_message lib mode now admin m st).0
step (presses mode admin uid pressed) st = (monitor_callback mode admin uid pressed st).0

-- Why a user may be banned: the account is young, the captcha was not answered, the user left
-- within four minutes, or has been in the group and silent for three minutes with the captcha
-- still open. Admins and bots who join are left alone.
abbrev pub Cause : Event → State → ℕ → Type 0
Cause (joins out now admin user) st uid =
    (user.user_id ≡ uid) × (admin ≡ false) × (user.is_bot ≡ false) × (is_young now user ≡ true)
Cause (ends works u ending) st uid = (u ≡ uid) × (ending ≡ timeout)
Cause (leaves works now u) st uid =
    (u ≡ uid) × ((t : ℕ) × (get uid st.user_join_times ≡ some t) × (now < t + max_quick_leave))
Cause (scans works now is_admin) st uid =
    (is_admin uid ≡ false)
    × (contains uid st.pending_captcha ≡ true)
    × ((t : ℕ) × (get uid st.user_join_times ≡ some t) × (t + seconds 180 < now))
Cause _ st uid = ⊥

ban-is_banned :
    (works : Bool) (u uid : ℕ) (st : State)
    → is_banned uid (ban works u st).0 ≡ true
    → (is_banned uid st ≡ true) ⊎ (u ≡ uid)
unfolding ban
ban-is_banned works u uid st h = elim (Bool-cases (nat_beq u uid)) [
  | inl e ↦ inr (ground (arith, e))
  | inr e ↦ inl (ground (arith, h, e))
]

pub ask_captcha-banned_scrapers :
    (out : Outside) (uid : ℕ) (st : State)
    → (ask_captcha out uid st).0.banned_scrapers ≡ st.banned_scrapers
unfolding ask_captcha
ask_captcha-banned_scrapers out uid st = elim (Bool-cases out.sends) [
  | inl e ↦ rw (ask_captcha, e) refl
  | inr e ↦ rw (ask_captcha, e) refl
]

on_join-is_banned :
    (out : Outside) (now : ℕ) (admin : Bool) (user : Joiner) (uid : ℕ) (st : State)
    → is_banned uid (on_join out now admin user st).0 ≡ true
    → (is_banned uid st ≡ true) ⊎ Cause (joins out now admin user) st uid
unfolding on_join
on_join-is_banned out now admin user uid st h =
    elim (Bool-cases (user.is_bot || user.is_self || admin)) [
      | inl e ↦ inl (rw (on_join, e) at h)
      | inr e ↦ elim (Bool-cases (is_young now user)) [
        | inl f ↦
            elim (ban-is_banned out.bans user.user_id uid (joined now user.user_id st)
              (rw (on_join, e, f) at h)) [
                | inl k ↦ inl k
                | inr same ↦ inr (same, ground (arith, e), ground (arith, e), f)
              ]
        | inr f ↦ inl (
            rw
              (
                on_join,
                e,
                f,
                ask_captcha-banned_scrapers out user.user_id (joined now user.user_id st),
              )
              at h)
      ]
    ]

captcha_ends-is_banned :
    (works : Bool) (u : ℕ) (ending : Ending) (uid : ℕ) (st : State)
    → is_banned uid (captcha_ends works u ending st).0 ≡ true
    → (is_banned uid st ≡ true) ⊎ ((u ≡ uid) × (ending ≡ timeout))
unfolding captcha_ends
captcha_ends-is_banned works u reply uid st h = inl h
captcha_ends-is_banned works u failure uid st h = inl h
captcha_ends-is_banned works u timeout uid st h = elim (ban-is_banned works u uid st h) [
  | inl k ↦ inl k
  | inr same ↦ inr (same, refl)
]

on_leave-is_banned :
    (works : Bool) (now u uid : ℕ) (st : State)
    → is_banned uid (on_leave works now u st).0 ≡ true
    → (is_banned uid st ≡ true) ⊎ Cause (leaves works now u) st uid
unfolding on_leave
on_leave-is_banned works now u uid st h = elim (Option-cases (get u st.user_join_times)) [
  | inl e ↦ inl (rw (on_leave, e) at h)
  | inr (t, e) ↦ elim (Bool-cases (ltb now (t + max_quick_leave))) [
    | inr f ↦ inl (rw (on_leave, e, f) at h)
    | inl f ↦
        elim (ban-is_banned works u uid (record st { user_join_times = pop u st.user_join_times })
          (rw (on_leave, e, f) at h)) [
            | inl k ↦ inl k
            | inr same ↦ inr (same, (t, rw (← same) e, ground (arith, f)))
          ]
  ]
]

-- A user who is scanned and idle.
abbrev IsIdle : (ℕ → Bool) → ℕ → State → ℕ → Type 0
IsIdle is_admin now st uid =
    (is_admin uid ≡ false)
    × (contains uid st.pending_captcha ≡ true)
    × ((t : ℕ) × (get uid st.user_join_times ≡ some t) × (t + seconds 180 < now))

is_idle-IsIdle :
    (is_admin : ℕ → Bool) (now uid : ℕ) (st : State)
    → not (is_admin uid) && is_idle now uid st ≡ true
    → IsIdle is_admin now st uid
unfolding is_idle
is_idle-IsIdle is_admin now uid st h = elim (Option-cases (get uid st.user_join_times)) [
  | inl e ↦ absurd (ground (arith, rw (is_idle, e) at h))
  | inr (t, e) ↦
      let k = rw (is_idle, e) at h in
      (ground (arith, k), ground (arith, k), (t, e, ground (arith, k)))
]

contains-discard : (x y : ℕ) (xs : List ℕ) → contains x (discard y xs) ≡ true → contains x xs ≡ true
contains-discard x y [] h = h
contains-discard x y (z ∷ xs) h = ground (arith, h, contains-discard x y xs)

ban-user_join_times :
    (works : Bool) (u : ℕ) (st : State)
    → ((ban works u st).0.user_join_times ≡ st.user_join_times)
      × ((ban works u st).0.pending_captcha ≡ st.pending_captcha)
unfolding ban
ban-user_join_times works u st = elim (Bool-cases (contains u st.banned_scrapers)) [
  | inl e ↦ rw (ban, e) (refl, refl)
  | inr e ↦ rw (ban, e) (refl, refl)
]

-- One round of the loop changes no join time, opens no captcha, and bans only who is idle.
scan_one_lem :
    (works : Bool) (now : ℕ) (is_admin : ℕ → Bool) (u : ℕ) (st : State)
    → ((scan_one works now is_admin u st).0.user_join_times ≡ st.user_join_times)
      × ((uid : ℕ)
          → contains uid (scan_one works now is_admin u st).0.pending_captcha ≡ true
          → contains uid st.pending_captcha ≡ true)
      × ((uid : ℕ)
          → is_banned uid (scan_one works now is_admin u st).0 ≡ true
          → (is_banned uid st ≡ true) ⊎ IsIdle is_admin now st uid)
unfolding scan_one
scan_one_lem works now is_admin u st =
    let (times, pending) = ban-user_join_times works u st in
    elim (Bool-cases (not (is_admin u) && is_idle now u st)) [
      | inr e ↦ rw (scan_one, e) (refl, λ uid h. h, λ uid h. inl h)
      | inl e ↦
          rw (scan_one, e)
            (
              times,
              λ uid h. contains-discard uid u st.pending_captcha (rw pending at h),
              λ uid h. elim (ban-is_banned works u uid st h) [
                | inl k ↦ inl k
                | inr same ↦ inr (rw (← same) (is_idle-IsIdle is_admin now u st e))
              ],
            )
    ]

scan-is_banned :
    (works : Bool) (now : ℕ) (is_admin : ℕ → Bool) (uids : List ℕ) (uid : ℕ) (st : State)
    → is_banned uid (scan works now is_admin uids st).0 ≡ true
    → (is_banned uid st ≡ true) ⊎ IsIdle is_admin now st uid
unfolding scan
scan-is_banned works now is_admin [] uid st h = inl h
scan-is_banned works now is_admin (u ∷ uids) uid st h =
    let (times, pending, bans) = scan_one_lem works now is_admin u st in
    elim (scan-is_banned works now is_admin uids uid (scan_one works now is_admin u st).0 h) [
      | inl k ↦ bans uid k
      | inr (no_admin, waits, (t, e, long)) ↦
          inr (no_admin, pending uid waits, (t, rw times at e, long))
    ]

pub monitor_message-banned_scrapers :
    (lib : Library) (mode : Text) (now : ℕ) (admin : Bool) (m : Message) (st : State)
    → (monitor_message lib mode now admin m st).0.banned_scrapers ≡ st.banned_scrapers
unfolding monitor_message judge_profile
monitor_message-banned_scrapers lib mode now admin m st = ground arith

pub monitor_callback-banned_scrapers :
    (mode : Text) (admin : Bool) (uid : ℕ) (pressed : Text) (st : State)
    → (monitor_callback mode admin uid pressed st).0.banned_scrapers ≡ st.banned_scrapers
unfolding monitor_callback
monitor_callback-banned_scrapers mode admin uid pressed st = ground arith

pub deploy_honeypot-banned_scrapers :
    (mode token : Text) (popped : List Text → Text) (st : State)
    → (deploy_honeypot mode token popped st).0.banned_scrapers ≡ st.banned_scrapers
unfolding deploy_honeypot
deploy_honeypot-banned_scrapers mode token popped st = ground arith

-- Nobody is banned without a cause. Whatever happens, who is banned afterwards was banned before, or
-- is the new member with a young account (and no admin and no bot), the member whose captcha timed
-- out, the member who left within four minutes, or, in a scan, a member who is no admin, joined more
-- than three minutes ago, and whose captcha is open. Traps, messages and buttons ban nobody.
pub step-is_banned :
    (event : Event) (uid : ℕ) (st : State)
    → is_banned uid (step event st) ≡ true
    → (is_banned uid st ≡ true) ⊎ Cause event st uid
unfolding bg_scan
step-is_banned (joins out now admin user) uid st h = on_join-is_banned out now admin user uid st h
step-is_banned (ends works u ending) uid st h = captcha_ends-is_banned works u ending uid st h
step-is_banned (leaves works now u) uid st h = on_leave-is_banned works now u uid st h
step-is_banned (scans works now is_admin) uid st h =
    scan-is_banned works now is_admin (map (λ (u, _). u) st.user_join_times) uid st h
step-is_banned (plants mode token popped) uid st h =
    inl (rw (deploy_honeypot-banned_scrapers mode token popped st) at h)
step-is_banned (writes lib mode now admin m) uid st h =
    inl (rw (monitor_message-banned_scrapers lib mode now admin m st) at h)
step-is_banned (presses mode admin u pressed) uid st h =
    inl (rw (monitor_callback-banned_scrapers mode admin u pressed st) at h)
