-- ===== src/Defender/Traps.antt =====
-- defender.py: the tokens of planted traps.
use add_members.Base.{
  ℕ, suc, ◌+◌, ◌≡◌, ◌≤◌, ◌<◌, refl, Bool, true, false, not, ◌&&◌, ◌||◌, Option, none, List, [], ◌∷◌,
  Text, text_eq, ltb, length, contains, if◌then◌else◌, All, Bool-cases, Option-cases, ◌∙◌, map, put,
  pop, get, leb, nat_eq, inl, inr, arith,
}
use add_members.Defender.{
  State, insert, discard, deploy_honeypot, monitor_message, Message, Library, invisible_link, off,
  matched, judge_profile, score_of, ban, scan, scan_one, is_idle, Outside, Joiner, on_join,
  ask_captcha, is_young, joined, on_leave, max_quick_leave, Ending, reply, timeout, failure,
  captcha_ends, monitor_callback, bg_scan,
}
use add_members.Defender.Causes.{Event, plants, writes, joins, ends, leaves, scans, presses, step}

length-discard_le : (x : Text) (xs : List Text) → length (discard x xs) ≤ length xs
length-discard_le x [] = omega arith
length-discard_le x (y ∷ xs) = ground (arith, length-discard_le x xs)

same_sym : (x y : Text) → text_eq.same y x ≡ text_eq.same x y
same_sym x y = ground (arith, text_eq.same_iff x y, text_eq.same_iff y x)

length-discard_lt :
    (x : Text) (xs : List Text) → contains x xs ≡ true → length (discard x xs) < length xs
length-discard_lt x [] h = ground (arith, h)
length-discard_lt x (y ∷ xs) h =
    ground (arith, h, same_sym x y, length-discard_lt x xs, length-discard_le x xs)

length-insert : (x : Text) (xs : List Text) → length (insert x xs) ≤ suc (length xs)
length-insert x xs = ground arith

-- `set.pop` takes an element of the set.
abbrev pub Pops : Event → Type 0
Pops (plants mode token popped) =
    (x : Text) (traps : List Text) → contains (popped (x ∷ traps)) (x ∷ traps) ≡ true
Pops _ = Unit

deploy_honeypot_max :
    (mode token : Text) (popped : List Text → Text) (st : State)
    → ((x : Text) (traps : List Text) → contains (popped (x ∷ traps)) (x ∷ traps) ≡ true)
    → length st.active_traps ≤ 50
    → length (deploy_honeypot mode token popped st).0.active_traps ≤ 50
unfolding deploy_honeypot
deploy_honeypot_max mode token popped st pops h =
    elim (Bool-cases (text_eq.same mode invisible_link)) [
      | inr e ↦ rw (deploy_honeypot, e) h
      | inl e ↦ elim (Bool-cases (ltb 50 (length (insert token st.active_traps)))) [
        | inr f ↦ rw (deploy_honeypot, e, f) (ground (arith, f))
        | inl f ↦
            rw (deploy_honeypot, e, f)
              (popped_max (insert token st.active_traps)
                (ground (arith, h, length-insert token st.active_traps)))
      ]
    ]
  where
    popped_max :
        (traps : List Text) → length traps ≤ 51 → length (discard (popped traps) traps) ≤ 50
    popped_max [] k = omega arith
    popped_max (x ∷ traps) k =
        omega (arith, k, length-discard_lt (popped (x ∷ traps)) (x ∷ traps) (pops x traps))

monitor_message-active_traps :
    (lib : Library) (mode : Text) (now : ℕ) (admin : Bool) (m : Message) (st : State)
    → length (monitor_message lib mode now admin m st).0.active_traps ≤ length st.active_traps
unfolding monitor_message
monitor_message-active_traps lib mode now true m st = omega arith
monitor_message-active_traps lib mode now false m st =
    let hit : Option Text =
      if text_eq.same mode off then none else matched st.active_traps (lib.lower m.text) in
    elim (Option-cases hit) [
      | inl e ↦
          rw (monitor_message, e)
            (judged (record st { last_activity = put m.user_id now st.last_activity }))
      | inr (t, e) ↦ rw (monitor_message, e) (length-discard_le t st.active_traps)
    ]
  where
    judged : (s : State) → length (judge_profile lib m s).0.active_traps ≤ length s.active_traps
    judged s = elim (Bool-cases (leb 6 (score_of lib m))) [
      | inl e ↦ rw (judge_profile, e) (omega arith)
      | inr e ↦ rw (judge_profile, e) (omega arith)
    ]

ban-active_traps :
    (works : Bool) (u : ℕ) (st : State) → (ban works u st).0.active_traps ≡ st.active_traps
unfolding ban
ban-active_traps works u st = elim (Bool-cases (contains u st.banned_scrapers)) [
  | inl e ↦ rw (ban, e) refl
  | inr e ↦ rw (ban, e) refl
]

scan-active_traps :
    (works : Bool) (now : ℕ) (is_admin : ℕ → Bool) (uids : List ℕ) (st : State)
    → (scan works now is_admin uids st).0.active_traps ≡ st.active_traps
unfolding scan scan_one
scan-active_traps works now is_admin [] st = refl
scan-active_traps works now is_admin (u ∷ uids) st =
    scan-active_traps works now is_admin uids (scan_one works now is_admin u st).0
    ∙ elim (Bool-cases (not (is_admin u) && is_idle now u st)) [
      | inl e ↦ rw (scan_one, e) (ban-active_traps works u st)
      | inr e ↦ rw (scan_one, e) refl
    ]

on_join-active_traps :
    (out : Outside) (now : ℕ) (admin : Bool) (user : Joiner) (st : State)
    → (on_join out now admin user st).0.active_traps ≡ st.active_traps
unfolding on_join ask_captcha
on_join-active_traps out now admin user st =
    elim (Bool-cases (user.is_bot || user.is_self || admin)) [
      | inl e ↦ rw (on_join, e) refl
      | inr e ↦ elim (Bool-cases (is_young now user)) [
        | inl f ↦
            rw (on_join, e, f) (ban-active_traps out.bans user.user_id (joined now user.user_id st))
        | inr f ↦ elim (Bool-cases out.sends) [
          | inl g ↦ rw (on_join, e, f, ask_captcha, g) refl
          | inr g ↦ rw (on_join, e, f, ask_captcha, g) refl
        ]
      ]
    ]

on_leave-active_traps :
    (works : Bool) (now u : ℕ) (st : State)
    → (on_leave works now u st).0.active_traps ≡ st.active_traps
unfolding on_leave
on_leave-active_traps works now u st = elim (Option-cases (get u st.user_join_times)) [
  | inl e ↦ rw (on_leave, e) refl
  | inr (t, e) ↦ elim (Bool-cases (ltb now (t + max_quick_leave))) [
    | inl f ↦
        rw (on_leave, e, f)
          (ban-active_traps works u (record st { user_join_times = pop u st.user_join_times }))
    | inr f ↦ rw (on_leave, e, f) refl
  ]
]

captcha_ends-active_traps :
    (works : Bool) (u : ℕ) (ending : Ending) (st : State)
    → (captcha_ends works u ending st).0.active_traps ≡ st.active_traps
unfolding captcha_ends
captcha_ends-active_traps works u reply st = refl
captcha_ends-active_traps works u timeout st = ban-active_traps works u st
captcha_ends-active_traps works u failure st = refl

monitor_callback-active_traps :
    (mode : Text) (admin : Bool) (u : ℕ) (pressed : Text) (st : State)
    → (monitor_callback mode admin u pressed st).0.active_traps ≡ st.active_traps
unfolding monitor_callback
monitor_callback-active_traps mode admin u pressed st = ground arith

step-active_traps :
    (event : Event) (st : State)
    → Pops event
    → length st.active_traps ≤ 50
    → length (step event st).active_traps ≤ 50
unfolding bg_scan
step-active_traps (joins out now admin user) st p h =
    rw (on_join-active_traps out now admin user st) h
step-active_traps (ends works u ending) st p h = rw (captcha_ends-active_traps works u ending st) h
step-active_traps (leaves works now u) st p h = rw (on_leave-active_traps works now u st) h
step-active_traps (scans works now is_admin) st p h =
    rw (scan-active_traps works now is_admin (map (λ (u, _). u) st.user_join_times) st) h
step-active_traps (plants mode token popped) st p h = deploy_honeypot_max mode token popped st p h
step-active_traps (writes lib mode now admin m) st p h =
    omega (arith, h, monitor_message-active_traps lib mode now admin m st)
step-active_traps (presses mode admin u pressed) st p h =
    rw (monitor_callback-active_traps mode admin u pressed st) h

abbrev pub run : List Event → State → State
run [] st = st
run (event ∷ events) st = run events (step event st)

-- The bot never keeps more than fifty traps. If `set.pop` takes an element of the set, a run of any
-- events that starts with at most fifty active traps has at most fifty at its end.
pub run-active_traps :
    (events : List Event) (st : State)
    → All Pops events
    → length st.active_traps ≤ 50
    → length (run events st).active_traps ≤ 50
run-active_traps [] st p h = h
run-active_traps (event ∷ events) st p h =
    run-active_traps events (step event st) p.1 (step-active_traps event st p.0 h)
