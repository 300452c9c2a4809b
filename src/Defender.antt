-- ===== src/Defender.antt =====
-- defender.py, `AdvancedDefender`: new members, idle members, suspicious profiles and traps.
-- Each handler is a step, and `on_join` two, before and after it waits for the captcha.
pub mod Causes
pub mod Traps
pub mod Bans
mod Examples
use add_members.Base.{
  ℕ, ◌+◌, ◌*◌, Bool, true, false, not, ◌&&◌, ◌||◌, Option, none, some, List, [], ◌∷◌, ◌++◌, map,
  Text, codes, Dict, get, put, pop, Key, nat_eq, text_eq, nat_beq, ltb, leb, length, seconds,
  contains, keep_if, any, all, has_part, starts_with, strip, if◌then◌else◌,
}

abbrev pub min_account_age : ℕ
min_account_age = seconds (25 * 86400)

abbrev pub max_quick_leave : ℕ
max_quick_leave = seconds 240

-- The state of the class. `banned_scrapers` and the other sets are lists without repetition.
pub record State : Type 0 where
  pub user_join_times : Dict ℕ ℕ
  pub banned_scrapers : List ℕ
  pub pending_captcha : List ℕ
  pub user_risk_score : Dict ℕ ℕ
  pub last_activity : Dict ℕ ℕ
  pub captcha_codes : Dict ℕ Text
  pub active_traps : List Text

-- The calls of the client. An alert goes to the owner.
pub data Call : Type 0 where
  restricted : (user_id : ℕ) (can_send : Bool) → Call
  banned unbanned asked welcomed : (user_id : ℕ) → Call
  deleted alerted answered planted : Call

module _ {K : Type 0} ⦃e : Key K⦄ where
  -- `set.add`
  abbrev pub insert : K → List K → List K
  insert x xs = if contains x xs then xs else x ∷ xs

  -- `set.discard`
  abbrev pub discard : K → List K → List K
  discard x xs = keep_if (λ y. not (e.same x y)) xs

-- `ban`: whether the request works is an argument. Saving the set is left out: it always fails.
unfoldable pub ban : Bool → ℕ → State → State × List Call
ban works uid st = if contains uid st.banned_scrapers then (st, []) else (
  record st { banned_scrapers = insert uid st.banned_scrapers },
  if works then banned uid ∷ unbanned uid ∷ [] else [],
)

pub record Joiner : Type 0 where
  pub user_id : ℕ
  pub is_bot : Bool
  pub is_self : Bool
  pub date : ℕ

-- Whether a ban works, whether the question is sent, and the phrase of the captcha.
pub record Outside : Type 0 where
  pub bans : Bool
  pub sends : Bool
  pub phrase : Text

-- The age is in days, and an account without a date passes.
abbrev pub is_young : ℕ → Joiner → Bool
is_young now user = not (nat_beq user.date 0) && ltb now (user.date + min_account_age)

-- The captcha is forgotten.
abbrev pub forget : ℕ → State → State
forget uid st = record st {
  pending_captcha = discard uid st.pending_captcha;
  captcha_codes = pop uid st.captcha_codes;
}

-- `on_join` after the age: the flag says that it waits for an answer.
unfoldable pub ask_captcha : Outside → ℕ → State → State × List Call × Bool
ask_captcha out uid st =
    let pending : State = record st {
      pending_captcha = insert uid st.pending_captcha;
      captcha_codes = put uid out.phrase st.captcha_codes;
    } in
    if out.sends then (pending, restricted uid false ∷ asked uid ∷ [], true) else (
      record pending { pending_captcha = discard uid pending.pending_captcha },
      restricted uid false ∷ [],
      false,
    )

abbrev pub joined : ℕ → ℕ → State → State
joined now uid st = record st {
  user_join_times = put uid now st.user_join_times;
  last_activity = put uid now st.last_activity;
}

-- `on_join` until it listens.
unfoldable pub on_join : Outside → ℕ → Bool → Joiner → State → State × List Call × Bool
unfolding ban ask_captcha
on_join out now admin user st =
    let uid = user.user_id in
    let (st', calls) = ban out.bans uid (joined now uid st) in
    if user.is_bot || user.is_self || admin
    then (st, [], false)
    else if is_young now user
    then (st', calls ++ (alerted ∷ []), false)
    else ask_captcha out uid (joined now uid st)

-- How `listen` ends.
pub data Ending : Type 0 where
  reply timeout failure : Ending

-- The rest of `on_join`.
unfoldable pub captcha_ends : Bool → ℕ → Ending → State → State × List Call
unfolding ban
captcha_ends works uid reply st = (forget uid st, restricted uid true ∷ welcomed uid ∷ [])
captcha_ends works uid timeout st =
    let (st', calls) = ban works uid st in (forget uid st', calls ++ (alerted ∷ []))
captcha_ends works uid failure st = (forget uid st, [])

-- `on_leave`
unfoldable pub on_leave : Bool → ℕ → ℕ → State → State × List Call
unfolding ban
on_leave works now uid st = elim (get uid st.user_join_times) [
  | none ↦ (st, [])
  | some t ↦
      let gone : State = record st { user_join_times = pop uid st.user_join_times } in
      let (st', calls) = ban works uid gone in
      if ltb now (t + max_quick_leave) then (st', calls ++ (alerted ∷ [])) else (gone, [])
]

-- Some time and three minutes are over.
abbrev pub is_over : ℕ → ℕ → Bool
is_over now t = ltb (t + seconds 180) now

-- Long in the group, long silent, and the captcha waits.
unfoldable pub is_idle : ℕ → ℕ → State → Bool
is_idle now uid st = elim (get uid st.user_join_times) [
  | none ↦ false
  | some t ↦
      is_over now t
      && is_over now (elim (get uid st.last_activity) [ none ↦ t | some a ↦ a ])
      && contains uid st.pending_captcha
]

unfoldable pub scan_one : Bool → ℕ → (ℕ → Bool) → ℕ → State → State × List Call
unfolding is_idle ban
scan_one works now is_admin uid st =
    let (st', calls) = ban works uid st in
    if not (is_admin uid) && is_idle now uid st
    then (record st' { pending_captcha = discard uid st'.pending_captcha }, calls ++ (alerted ∷ []))
    else (st, [])

-- The loop of `bg_scan`.
unfoldable pub scan : Bool → ℕ → (ℕ → Bool) → List ℕ → State → State × List Call
unfolding scan_one
scan works now is_admin [] st = (st, [])
scan works now is_admin (uid ∷ uids) st =
    let (st', calls) = scan_one works now is_admin uid st in
    let (st'', later) = scan works now is_admin uids st' in (st'', calls ++ later)

-- One round of `bg_scan`.
unfoldable pub bg_scan : Bool → ℕ → (ℕ → Bool) → State → State × List Call
unfolding scan
bg_scan works now is_admin st =
    scan works now is_admin (map (λ (uid, _). uid) st.user_join_times) st

abbrev pub off : Text
off = codes "off"

abbrev pub invisible_link : Text
invisible_link = codes "invisible_link"

-- `deploy_honeypot`: `token` is the new token, and `popped` the one that `set.pop` takes.
unfoldable pub deploy_honeypot : Text → Text → (List Text → Text) → State → State × List Call
deploy_honeypot mode token popped st =
    let traps = insert token st.active_traps in
    if not (text_eq.same mode invisible_link) then (st, []) else (
      record st {
        active_traps = if ltb 50 (length traps) then discard (popped traps) traps else traps;
      },
      planted ∷ [],
    )

abbrev pub risk_of : ℕ → State → ℕ
risk_of uid st = elim (get uid st.user_risk_score) [ none ↦ 0 | some n ↦ n ]

abbrev pub add_risk : ℕ → ℕ → State → State
add_risk uid n st = record st { user_risk_score = put uid (risk_of uid st + n) st.user_risk_score }

-- `bad_name_keys`; the words in Persian are written by their code points.
abbrev pub bad_name_keys : List Text
bad_name_keys =
    codes "sms"
    ∷ codes "verify"
    ∷ codes "bonus"
    ∷ codes "airdrop"
    ∷ codes "win"
    ∷ codes "prize"
    ∷ codes "gift"
    ∷ (1583 ∷ 1585 ∷ 1570 ∷ 1605 ∷ 1583 ∷ [])
    ∷ (1705 ∷ 1587 ∷ 1576 ∷ 32 ∷ 1583 ∷ 1585 ∷ 1570 ∷ 1605 ∷ 1583 ∷ [])
    ∷ (1662 ∷ 1608 ∷ 1604 ∷ [])
    ∷ (1607 ∷ 1604 ∷ 1583 ∷ [])
    ∷ (1575 ∷ 1740 ∷ 1585 ∷ 1583 ∷ 1585 ∷ 1575 ∷ 1662 ∷ [])
    ∷ (1587 ∷ 1608 ∷ 1583 ∷ [])
    ∷ codes "support"
    ∷ codes "admin"
    ∷ codes "official"
    ∷ codes "team"
    ∷ (1662 ∷ 1588 ∷ 1578 ∷ 1740 ∷ 1576 ∷ 1575 ∷ 1606 ∷ [])
    ∷ (1575 ∷ 1583 ∷ 1605 ∷ 1740 ∷ 1606 ∷ [])
    ∷ []

abbrev pub false_titles : List Text
false_titles =
    codes "support"
    ∷ codes "admin"
    ∷ codes "official"
    ∷ (1662 ∷ 1588 ∷ 1578 ∷ 1740 ∷ 1576 ∷ 1575 ∷ 1606 ∷ [])
    ∷ (1575 ∷ 1583 ∷ 1605 ∷ 1740 ∷ 1606 ∷ [])
    ∷ []

-- `str.isdigit` of one character and `str.lower`.
pub record Library : Type 0 where
  pub is_digit : ℕ → Bool
  pub lower : Text → Text

pub record Message : Type 0 where
  pub user_id : ℕ
  pub text : Text
  pub first_name : Text
  pub last_name : Text
  pub username : Text

abbrev pub has_any : List Text → Text → Bool
has_any keys s = any (λ k. has_part k s) keys

-- The points of a profile.
unfoldable pub score_of : Library → Message → ℕ
unfolding has_part strip
score_of lib m =
    let name = strip (m.first_name ++ (32 ∷ m.last_name)) in
    let bare = keep_if (λ c. not (nat_beq c 32)) name in
    (if has_any bad_name_keys (lib.lower m.username) && not (nat_beq (length m.username) 0)
      then 4
      else 0)
    + (if not (nat_beq (length bare) 0) && all lib.is_digit bare && ltb 5 (length name)
        then 3
        else 0)
    + (if has_any false_titles (lib.lower name) then 4 else 0)

-- The first trap that the text contains.
unfoldable pub matched : List Text → Text → Option Text
unfolding has_part
matched [] text = none
matched (t ∷ traps) text = let rest = matched traps text in if has_part t text then some t else rest

-- The part on profiles.
unfoldable pub judge_profile : Library → Message → State → State × List Call
unfolding score_of
judge_profile lib m st =
    if leb 6 (score_of lib m)
    then (st, restricted m.user_id false ∷ deleted ∷ alerted ∷ [])
    else (st, [])

-- `monitor_message`
unfoldable pub monitor_message : Library → Text → ℕ → Bool → Message → State → State × List Call
unfolding matched judge_profile
monitor_message lib mode now admin m st =
    let seen : State = record st { last_activity = put m.user_id now st.last_activity } in
    if admin
    then (st, [])
    else elim (if text_eq.same mode off
        then none
        else matched seen.active_traps (lib.lower m.text)) [
          | some t ↦ (
            add_risk m.user_id 50 (record seen { active_traps = discard t seen.active_traps }),
            deleted ∷ alerted ∷ [],
          )
          | none ↦ judge_profile lib m seen
        ]

abbrev pub trap_buttons : List Text
trap_buttons = codes "hp_trap_" ∷ codes "hp_admin_" ∷ codes "hp_support_" ∷ []

-- `monitor_callback`: `pressed` is the data of the button in lower case.
unfoldable pub monitor_callback : Text → Bool → ℕ → Text → State → State × List Call
monitor_callback mode admin uid pressed st =
    if admin || text_eq.same mode off
    then (st, [])
    else if any (starts_with pressed) trap_buttons
    then (add_risk uid 70 st, answered ∷ alerted ∷ [])
    else (st, [])
