-- ===== src/Defender/Bans.antt =====
-- defender.py, `ban`: a member is removed from the group once and never again.
use add_members.Base.{
  ℕ, ◌+◌, ◌≡◌, refl, Bool, true, false, not, ◌&&◌, ◌||◌, Option, none, List, [], ◌∷◌, ◌++◌, map,
  Text, contains, nat_eq, nat_beq, ltb, leb, get, pop, put, any, starts_with, text_eq,
  if◌then◌else◌, All, All-append, Bool-cases, Option-cases, inl, inr, arith,
}
use add_members.Defender.{
  State, Call, banned, alerted, Joiner, Outside, Ending, reply, timeout, failure, max_quick_leave,
  ban, is_young, joined, ask_captcha, on_join, captcha_ends, on_leave, is_idle, scan_one, scan,
  bg_scan, deploy_honeypot, monitor_message, monitor_callback, judge_profile, Library, Message,
  score_of, matched, off, invisible_link, trap_buttons,
}
use add_members.Defender.Causes.{
  Event, joins, ends, leaves, scans, plants, writes, presses, step, is_banned,
  monitor_message-banned_scrapers, monitor_callback-banned_scrapers,
  deploy_honeypot-banned_scrapers,
}

-- The calls of each step.
abbrev pub calls_of : Event → State → List Call
calls_of (joins out now admin user) st = (on_join out now admin user st).1
calls_of (ends works uid ending) st = (captcha_ends works uid ending st).1
calls_of (leaves works now uid) st = (on_leave works now uid st).1
calls_of (scans works now is_admin) st = (bg_scan works now is_admin st).1
calls_of (plants mode token popped) st = (deploy_honeypot mode token popped st).1
calls_of (writes lib mode now admin m) st = (monitor_message lib mode now admin m st).1
calls_of (presses mode admin uid pressed) st = (monitor_callback mode admin uid pressed st).1

abbrev pub calls_of_run : List Event → State → List Call
calls_of_run [] st = []
calls_of_run (event ∷ events) st = calls_of event st ++ calls_of_run events (step event st)

-- The call does not ban the user.
abbrev pub Spares : ℕ → Call → Type 0
Spares uid (banned u) = nat_beq u uid ≡ false
Spares uid _ = Unit

-- The user stays in the set, and is not banned by these calls.
abbrev IsSpared : ℕ → State × List Call → Type 0
IsSpared uid (st, calls) = (is_banned uid st ≡ true) × All (Spares uid) calls

ban-IsSpared :
    (works : Bool) (u uid : ℕ) (st : State)
    → is_banned uid st ≡ true
    → IsSpared uid (ban works u st)
unfolding ban
ban-IsSpared works u uid st h = elim (Bool-cases (contains u st.banned_scrapers)) [
  | inl e ↦ rw (ban, e) (h, tt)
  | inr e ↦ elim (Bool-cases (nat_beq u uid)) [
    | inl f ↦ absurd (let same : u ≡ uid = ground (arith, f) in ground (arith, h, rw same at e))
    | inr f ↦ elim (Bool-cases works) [
      | inl g ↦ rw (ban, e, g, f) (h, (refl, (tt, tt)))
      | inr g ↦ rw (ban, e, g, f) (h, tt)
    ]
  ]
]

alerts :
    (uid : ℕ) (st : State) (calls : List Call)
    → IsSpared uid (st, calls)
    → IsSpared uid (st, calls ++ (alerted ∷ []))
alerts uid st calls h = (h.0, All-append (Spares uid) calls (alerted ∷ []) h.1 (tt, tt))

on_join-IsSpared :
    (out : Outside) (now : ℕ) (admin : Bool) (user : Joiner) (uid : ℕ) (st : State)
    → is_banned uid st ≡ true
    → IsSpared uid ((on_join out now admin user st).0, (on_join out now admin user st).1)
unfolding on_join
on_join-IsSpared out now admin user uid st h =
    elim (Bool-cases (user.is_bot || user.is_self || admin)) [
      | inl e ↦ rw (on_join, e) (h, tt)
      | inr e ↦
          let seen : State = joined now user.user_id st in
          elim (Bool-cases (is_young now user)) [
            | inl f ↦
                let spared = ban-IsSpared out.bans user.user_id uid seen h in
                rw (on_join, e, f)
                  (alerts uid (ban out.bans user.user_id seen).0 (ban out.bans user.user_id seen).1
                    spared)
            | inr f ↦ elim (Bool-cases out.sends) [
              | inl g ↦ rw (on_join, e, f, ask_captcha, g) (h, (tt, (tt, tt)))
              | inr g ↦ rw (on_join, e, f, ask_captcha, g) (h, (tt, tt))
            ]
          ]
    ]

captcha_ends-IsSpared :
    (works : Bool) (u : ℕ) (ending : Ending) (uid : ℕ) (st : State)
    → is_banned uid st ≡ true
    → IsSpared uid (captcha_ends works u ending st)
unfolding captcha_ends
captcha_ends-IsSpared works u reply uid st h = (h, (tt, (tt, tt)))
captcha_ends-IsSpared works u failure uid st h = (h, tt)
captcha_ends-IsSpared works u timeout uid st h =
    let spared = ban-IsSpared works u uid st h in
    (spared.0, All-append (Spares uid) (ban works u st).1 (alerted ∷ []) spared.1 (tt, tt))

on_leave-IsSpared :
    (works : Bool) (now u uid : ℕ) (st : State)
    → is_banned uid st ≡ true
    → IsSpared uid (on_leave works now u st)
unfolding on_leave
on_leave-IsSpared works now u uid st h = elim (Option-cases (get u st.user_join_times)) [
  | inl e ↦ rw (on_leave, e) (h, tt)
  | inr (t, e) ↦ elim (Bool-cases (ltb now (t + max_quick_leave))) [
    | inr f ↦ rw (on_leave, e, f) (h, tt)
    | inl f ↦
        let gone : State = record st { user_join_times = pop u st.user_join_times } in
        rw (on_leave, e, f)
          (alerts uid (ban works u gone).0 (ban works u gone).1 (ban-IsSpared works u uid gone h))
  ]
]

scan_one-IsSpared :
    (works : Bool) (now : ℕ) (is_admin : ℕ → Bool) (u uid : ℕ) (st : State)
    → is_banned uid st ≡ true
    → IsSpared uid (scan_one works now is_admin u st)
unfolding scan_one
scan_one-IsSpared works now is_admin u uid st h =
    elim (Bool-cases (not (is_admin u) && is_idle now u st)) [
      | inr e ↦ rw (scan_one, e) (h, tt)
      | inl e ↦
          let spared = ban-IsSpared works u uid st h in
          rw (scan_one, e)
            (spared.0, All-append (Spares uid) (ban works u st).1 (alerted ∷ []) spared.1 (tt, tt))
    ]

scan-IsSpared :
    (works : Bool) (now : ℕ) (is_admin : ℕ → Bool) (uids : List ℕ) (uid : ℕ) (st : State)
    → is_banned uid st ≡ true
    → IsSpared uid (scan works now is_admin uids st)
unfolding scan
scan-IsSpared works now is_admin [] uid st h = (h, tt)
scan-IsSpared works now is_admin (u ∷ uids) uid st h =
    let first = scan_one-IsSpared works now is_admin u uid st h in
    let st' = (scan_one works now is_admin u st).0 in
    let later = scan-IsSpared works now is_admin uids uid st' first.0 in
    (
      later.0,
      All-append (Spares uid) (scan_one works now is_admin u st).1
          (scan works now is_admin uids st').1 first.1 later.1,
    )

judge_profile-Spares :
    (lib : Library) (m : Message) (uid : ℕ) (st : State)
    → All (Spares uid) (judge_profile lib m st).1
unfolding judge_profile
judge_profile-Spares lib m uid st = elim (Bool-cases (leb 6 (score_of lib m))) [
  | inl e ↦ rw (judge_profile, e) (tt, (tt, (tt, tt)))
  | inr e ↦ rw (judge_profile, e) tt
]

monitor_message-Spares :
    (lib : Library) (mode : Text) (now : ℕ) (admin : Bool) (m : Message) (uid : ℕ) (st : State)
    → All (Spares uid) (monitor_message lib mode now admin m st).1
unfolding monitor_message
monitor_message-Spares lib mode now true m uid st = tt
monitor_message-Spares lib mode now false m uid st =
    let hit : Option Text =
      if text_eq.same mode off then none else matched st.active_traps (lib.lower m.text) in
    elim (Option-cases hit) [
      | inl e ↦
          rw (monitor_message, e)
            (judge_profile-Spares lib m uid
              (record st { last_activity = put m.user_id now st.last_activity }))
      | inr (t, e) ↦ rw (monitor_message, e) (tt, (tt, tt))
    ]

monitor_callback-Spares :
    (mode : Text) (admin : Bool) (u : ℕ) (pressed : Text) (uid : ℕ) (st : State)
    → All (Spares uid) (monitor_callback mode admin u pressed st).1
unfolding monitor_callback
monitor_callback-Spares mode admin u pressed uid st =
    elim (Bool-cases (admin || text_eq.same mode off)) [
      | inl e ↦ rw (monitor_callback, e) tt
      | inr e ↦ elim (Bool-cases (any (starts_with pressed) trap_buttons)) [
        | inl f ↦ rw (monitor_callback, e, f) (tt, (tt, tt))
        | inr f ↦ rw (monitor_callback, e, f) tt
      ]
    ]

deploy_honeypot-Spares :
    (mode token : Text) (popped : List Text → Text) (uid : ℕ) (st : State)
    → All (Spares uid) (deploy_honeypot mode token popped st).1
unfolding deploy_honeypot
deploy_honeypot-Spares mode token popped uid st =
    elim (Bool-cases (text_eq.same mode invisible_link)) [
      | inl e ↦ rw (deploy_honeypot, e) (tt, tt)
      | inr e ↦ rw (deploy_honeypot, e) tt
    ]

step-IsSpared :
    (event : Event) (uid : ℕ) (st : State)
    → is_banned uid st ≡ true
    → IsSpared uid (step event st, calls_of event st)
unfolding bg_scan
step-IsSpared (joins out now admin user) uid st h = on_join-IsSpared out now admin user uid st h
step-IsSpared (ends works u ending) uid st h = captcha_ends-IsSpared works u ending uid st h
step-IsSpared (leaves works now u) uid st h = on_leave-IsSpared works now u uid st h
step-IsSpared (scans works now is_admin) uid st h =
    scan-IsSpared works now is_admin (map (λ (u, _). u) st.user_join_times) uid st h
step-IsSpared (plants mode token popped) uid st h = (
  rw (deploy_honeypot-banned_scrapers mode token popped st) h,
  deploy_honeypot-Spares mode token popped uid st,
)
step-IsSpared (writes lib mode now admin m) uid st h = (
  rw (monitor_message-banned_scrapers lib mode now admin m st) h,
  monitor_message-Spares lib mode now admin m uid st,
)
step-IsSpared (presses mode admin u pressed) uid st h = (
  rw (monitor_callback-banned_scrapers mode admin u pressed st) h,
  monitor_callback-Spares mode admin u pressed uid st,
)

-- A member is removed once only. Who is in `banned_scrapers` stays there, and no later event calls
-- for a ban of them: one who comes back after the ban (which is lifted after two seconds) and again
-- leaves the captcha unanswered stays in the group, though the owner is told of a ban.
pub calls_of_run-Spares :
    (events : List Event) (uid : ℕ) (st : State)
    → is_banned uid st ≡ true
    → All (Spares uid) (calls_of_run events st)
calls_of_run-Spares [] uid st h = tt
calls_of_run-Spares (event ∷ events) uid st h =
    let (stays, spared) = step-IsSpared event uid st h in
    All-append (Spares uid) (calls_of event st) (calls_of_run events (step event st)) spared
      (calls_of_run-Spares events uid (step event st) stays)
