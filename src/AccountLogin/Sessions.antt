-- ===== src/AccountLogin/Sessions.antt =====
-- How long a session waits, and when an account is saved.
use add_members.Base.{
  ℕ, ◌+◌, ◌≡◌, ◌≤◌, refl, ap, ◌∙◌, Bool, true, false, Option, none, some, List, [], ◌∷◌, Text, get,
  put, pop, get-pop, get-pop_self, pop_all, get-pop_all, get-purge, IsUnique, pop_all-IsUnique,
  keys_where, contains, text_eq, text_beq_iff, if◌then◌else◌, strip, Bool-cases, Option-cases, inl,
  inr, ◌⊎◌, ◌≢◌, arith,
}
use add_members.AccountLogin.{
  Session, State, Answer, Reply, fine, raised, finish, purge_expired, purge_all, has_expired,
  close_option, session_ttl,
}
use add_members.AccountLogin.Submit.{
  Saving, session_path, persist, code_refused, password_refused, sign_in, files_saved, or_else,
}

close_option-parts :
    (entry : Option Session) (s : State)
    → ((close_option entry s).pending ≡ s.pending) × ((close_option entry s).accounts ≡ s.accounts)
close_option-parts none s = (refl, refl)
close_option-parts (some entry) s = (refl, refl)

purge_all-parts :
    (phones : List Text) (s : State)
    → ((purge_all phones s).pending ≡ pop_all phones s.pending)
      × ((purge_all phones s).accounts ≡ s.accounts)
unfolding purge_all
purge_all-parts [] s = (refl, refl)
purge_all-parts (phone ∷ phones) s =
    let popped : State = record s { pending = pop phone s.pending } in
    let (same_pending, same_accounts) = close_option-parts (get phone s.pending) popped in
    let (rest, rest_accounts) =
      purge_all-parts phones (close_option (get phone s.pending) popped) in
    (rest ∙ ap (pop_all phones) same_pending, rest_accounts ∙ same_accounts)

pub purge_expired_accounts : (now : ℕ) (s : State) → (purge_expired now s).accounts ≡ s.accounts
unfolding purge_expired
purge_expired_accounts now s = (purge_all-parts (keys_where (has_expired now) s.pending) s).1

pub purge_expired-IsUnique :
    (now : ℕ) (s : State) → IsUnique s.pending → IsUnique (purge_expired now s).pending
unfolding purge_expired
purge_expired-IsUnique now s u =
    rw (purge_all-parts (keys_where (has_expired now) s.pending) s).0
      (pop_all-IsUnique (keys_where (has_expired now) s.pending) s.pending u)

-- A purge drops the sessions that waited too long, and those alone.
pub get-purge_expired :
    (now : ℕ) (phone : Text) (s : State)
    → IsUnique s.pending
    → get phone (purge_expired now s).pending ≡ elim (get phone s.pending) [
      | none ↦ none
      | some entry ↦ if has_expired now entry then none else some entry
    ]
unfolding purge_expired
get-purge_expired now phone s u =
    rw (purge_all-parts (keys_where (has_expired now) s.pending) s).0 (
      ground (
        arith,
        get-pop_all (keys_where (has_expired now) s.pending) phone s.pending,
        get-purge (has_expired now) phone s.pending u,
      ))

get-finish :
    (phone : Text) (success : Bool) (s : State)
    → (get phone (finish phone success s).pending ≡ none)
      × ((finish phone success s).accounts ≡ s.accounts)
unfolding finish
get-finish phone success s =
    (ground (arith, get-pop phone phone s.pending, text_beq_iff phone phone), ground arith)

module _ (is_digit : ℕ → Bool) where
  -- The answer is true and the session file is there, or it is false and the account could not be
  -- deleted.
  abbrev pub Outcome : Saving → Text → State × Answer → Type 0
  Outcome env phone (s, answer) =
      ((answer.0 ≡ true) × (contains (session_path is_digit phone) s.files ≡ true))
      ⊎ ((answer.0 ≡ false) × (env.deletes_account ≡ false))

  -- The session is over, with such an outcome or without the account.
  abbrev pub Saved : Saving → Text → State × Answer → Type 0
  Saved env phone (s, answer) =
      (get phone s.pending ≡ none)
      × (Outcome env phone (s, answer) ⊎ ((answer.0 ≡ false) × (get phone s.accounts ≡ none)))

  persist_moved :
      (env : Saving) (phone : Text) (s : State) (entry : Session) (first_name username : Text)
      → get phone s.pending ≡ some entry
      → env.me ≡ some (first_name, username)
      → Saved env phone (persist is_digit env phone s)
  unfolding persist
  persist_moved env phone s entry first_name username e f =
      elim (Bool-cases (
        contains (session_path is_digit phone)
          (files_saved env entry.tmp_name (session_path is_digit phone) s.files))) [
            | inl g ↦ (
              ground (arith, get-pop_self phone s.pending),
              inl (inl (ground arith, ground arith)),
            )
            | inr g ↦
                let saved : State = record s {
                  accounts =
                      if env.saves_account
                      then put phone (or_else (strip first_name) phone, strip username) s.accounts
                      else s.accounts;
                  files = files_saved env entry.tmp_name (session_path is_digit phone) s.files;
                  disconnected = entry.client ∷ s.disconnected;
                } in
                (
                  ground (arith, get-finish phone false saved),
                  elim (Bool-cases env.deletes_account) [
                    | inl d ↦ inr (
                      ground arith,
                      ground (arith, get-pop_self phone (finish phone false saved).accounts),
                    )
                    | inr d ↦ inl (inr (ground arith, d))
                  ],
                )
          ]

  pub persist-Saved :
      (env : Saving) (phone : Text) (s : State)
      → get phone s.accounts ≡ none
      → Saved env phone (persist is_digit env phone s)
  unfolding persist
  persist-Saved env phone s h = elim (Option-cases (get phone s.pending)) [
    | inl e ↦ (ground arith, inr (ground arith, ground arith))
    | inr (entry, e) ↦ elim (Option-cases env.me) [
      | inl f ↦ (
        ground (arith, get-finish phone false s),
        inr (ground arith, ground (arith, get-finish phone false s)),
      )
      | inr ((first_name, username), f) ↦ persist_moved env phone s entry first_name username e f
    ]
  ]

  code_refused_accounts :
      (later : ℕ) (phone : Text) (entry : Session) (name : Text) (s : State)
      → (code_refused is_digit later phone entry name s).0.accounts ≡ s.accounts
  unfolding code_refused
  code_refused_accounts later phone entry name s = ground (arith, get-finish phone false s)

  password_refused_accounts :
      (phone name : Text) (s : State)
      → (password_refused is_digit phone name s).0.accounts ≡ s.accounts
  unfolding password_refused
  password_refused_accounts phone name s = ground (arith, get-finish phone false s)

  -- What stands behind an account that a request has saved: its session was pending and fresh,
  -- Telegram accepted what was sent, the session is over, and the outcome is as above.
  abbrev pub LoggedIn : Saving → ℕ → Text → State → Reply → State × Answer → Type 0
  LoggedIn env now phone s reply (t, answer) =
      (entry : Session) × (get phone s.pending ≡ some entry)
      × (now ≤ entry.ts + session_ttl)
      × (reply ≡ fine)
      × (get phone t.pending ≡ none)
      × Outcome env phone (t, answer)

  purged_fresh :
      (now : ℕ) (phone : Text) (s : State) (entry : Session)
      → IsUnique s.pending
      → get phone (purge_expired now s).pending ≡ some entry
      → (get phone s.pending ≡ some entry) × (now ≤ entry.ts + session_ttl)
  purged_fresh now phone s entry u e = elim (Option-cases (get phone s.pending)) [
    | inl f ↦ absurd (ground (arith, get-purge_expired now phone s u))
    | inr (old, f) ↦ elim (Bool-cases (has_expired now old)) [
      | inl g ↦ absurd (ground (arith, get-purge_expired now phone s u))
      | inr g ↦
          let same : old ≡ entry = ground (arith, get-purge_expired now phone s u) in
          rw (← same) (f, ground arith)
    ]
  ]

  Saved-LoggedIn :
      (env : Saving) (now : ℕ) (phone : Text) (s : State) (entry : Session)
      (result : State × Answer)
      → IsUnique s.pending
      → get phone (purge_expired now s).pending ≡ some entry
      → Saved env phone result
      → get phone result.0.accounts ≢ none
      → LoggedIn env now phone s fine result
  Saved-LoggedIn env now phone s entry result u e (over, inl outcome) h =
      let (found, fresh) = purged_fresh now phone s entry u e in
      (entry, found, fresh, refl, over, outcome)
  Saved-LoggedIn env now phone s entry result u e (over, inr (_, absent)) h = absurd (h absent)

  pub sign_in_found :
      (now later : ℕ) (reply : Reply) (env : Saving) (phone : Text) (s : State) (entry : Session)
      → get phone (purge_expired now s).pending ≡ some entry
      → sign_in is_digit now later reply env phone s ≡ elim reply [
        | fine ↦ persist is_digit env phone (purge_expired now s)
        | raised name ↦ code_refused is_digit later phone entry name (purge_expired now s)
      ]
  unfolding sign_in
  sign_in_found now later reply env phone s entry e = ground arith

  -- An account that `submit_code` saves has a session that was pending and fresh, Telegram took the
  -- code, and its file is there unless it could not be deleted again.
  pub sign_in-LoggedIn :
      (now later : ℕ) (reply : Reply) (env : Saving) (phone : Text) (s : State)
      → IsUnique s.pending
      → get phone s.accounts ≡ none
      → get phone (sign_in is_digit now later reply env phone s).0.accounts ≢ none
      → LoggedIn env now phone s reply (sign_in is_digit now later reply env phone s)
  unfolding sign_in
  sign_in-LoggedIn now later reply env phone s u absent h =
      elim (Option-cases (get phone (purge_expired now s).pending)) [
        | inl e ↦ absurd (h (ground (arith, gone)))
        | inr (entry, e) ↦
            rw (sign_in_found now later reply env phone s entry e)
              (found entry e reply (rw (sign_in_found now later reply env phone s entry e) at h))
      ]
    where
      gone : get phone (purge_expired now s).accounts ≡ none
      gone = ap (get phone) (purge_expired_accounts now s) ∙ absent

      result : Session → Reply → State × Answer
      result entry fine = persist is_digit env phone (purge_expired now s)
      result entry (raised name) =
          code_refused is_digit later phone entry name (purge_expired now s)

      found :
          (entry : Session)
          → get phone (purge_expired now s).pending ≡ some entry
          → (r : Reply) → get phone (result entry r).0.accounts ≢ none
          → LoggedIn env now phone s r (result entry r)
      found entry e fine k =
          Saved-LoggedIn env now phone s entry (persist is_digit env phone (purge_expired now s)) u
            e (persist-Saved env phone (purge_expired now s) gone) k
      found entry e (raised name) k = absurd (
          k (
            ap (get phone) (code_refused_accounts later phone entry name (purge_expired now s))
            ∙ gone))
