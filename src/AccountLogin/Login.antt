-- ===== src/AccountLogin/Login.antt =====
-- The whole login: from the number to the saved account.
use add_members.Base.{
  ℕ, ◌+◌, ◌≡◌, ◌<◌, ◌≤◌, refl, ap, ◌∙◌, Bool, true, false, Option, none, some, [], ◌∷◌, Text, get,
  get-put_self, IsUnique, contains, text_eq, keep_if, inr, ◌≢◌, arith, put-IsUnique, strip,
}
use add_members.AccountLogin.{
  code, Session, State, Reply, fine, purge_expired, session_ttl, expired, added, start_check,
  start_store, sent,
}
use add_members.AccountLogin.Submit.{
  Saving, session_path, persist, sign_in, submit_code, files_saved, or_else,
}
use add_members.AccountLogin.Phone.{normalize_phone}
use add_members.AccountLogin.Sessions.{
  LoggedIn, purge_expired-IsUnique, sign_in-LoggedIn, get-purge_expired, purge_expired_accounts,
  sign_in_found,
}

module _ (is_digit : ℕ → Bool) where
  submit_code_valid :
      (now later : ℕ) (raw : Option Text) (phone given : Text) (c : ℕ) (cs : Text)
      (reply : Text → Reply) (env : Saving) (s : State)
      → normalize_phone is_digit raw ≡ some phone
      → keep_if is_digit given ≡ c ∷ cs
      → submit_code is_digit now later raw given reply env s
        ≡ sign_in is_digit now later (reply (c ∷ cs)) env phone s
  unfolding submit_code
  submit_code_valid now later raw phone given c cs reply env s e f = ground arith

  submit_code_empty :
      (now later : ℕ) (raw : Option Text) (phone given : Text) (reply : Text → Reply) (env : Saving)
      (s : State)
      → normalize_phone is_digit raw ≡ some phone
      → keep_if is_digit given ≡ []
      → (submit_code is_digit now later raw given reply env s).0 ≡ s
  unfolding submit_code
  submit_code_empty now later raw phone given reply env s e f = ground arith

  -- If after `submit_code` there is an account for a number that had none, then a session of that
  -- number was pending and not older than five minutes, Telegram accepted the digits of the code, and
  -- the session is no longer pending. Moreover the answer is true and the session file is on the
  -- disk, unless the deletion of the account failed: then the answer may be false.
  pub submit_code-LoggedIn :
      (now later : ℕ) (raw : Option Text) (phone given : Text) (reply : Text → Reply) (env : Saving)
      (s : State)
      → normalize_phone is_digit raw ≡ some phone
      → IsUnique s.pending
      → get phone s.accounts ≡ none
      → get phone (submit_code is_digit now later raw given reply env s).0.accounts ≢ none
      → LoggedIn is_digit env now phone s
          (reply (keep_if is_digit given))
          (submit_code is_digit now later raw given reply env s)
  submit_code-LoggedIn now later raw phone given reply env s e u absent h =
      at (keep_if is_digit given) refl
    where
      at :
          (digits : Text)
          → keep_if is_digit given ≡ digits
          → LoggedIn is_digit env now phone s
              (reply (keep_if is_digit given))
              (submit_code is_digit now later raw given reply env s)
      at [] f = absurd (
          h (
            ap (λ t. get phone t.accounts)
              (submit_code_empty now later raw phone given reply env s e f)
            ∙ absent))
      at (c ∷ cs) f =
          let valid = submit_code_valid now later raw phone given c cs reply env s e f in
          rw (valid, f)
            (sign_in-LoggedIn is_digit now later (reply (c ∷ cs)) env phone s u absent
              (rw valid at h))

  -- A code that comes more than five minutes after the last step of its session is refused, and the
  -- session is gone.
  pub submit_code-expired :
      (now later : ℕ) (raw : Option Text) (phone given : Text) (c : ℕ) (cs : Text)
      (reply : Text → Reply) (env : Saving) (s : State) (entry : Session)
      → normalize_phone is_digit raw ≡ some phone
      → keep_if is_digit given ≡ c ∷ cs
      → IsUnique s.pending
      → get phone s.pending ≡ some entry
      → entry.ts + session_ttl < now
      → ((submit_code is_digit now later raw given reply env s).1 ≡ (false, expired, none))
        × (get phone (submit_code is_digit now later raw given reply env s).0.pending ≡ none)
        × ((submit_code is_digit now later raw given reply env s).0.accounts ≡ s.accounts)
  unfolding sign_in
  submit_code-expired now later raw phone given c cs reply env s entry e f u found old =
      let gone : get phone (purge_expired now s).pending ≡ none =
        ground (arith, get-purge_expired now phone s u) in
      rw (submit_code_valid now later raw phone given c cs reply env s e f)
        (ground arith, ground arith, ground (arith, purge_expired_accounts now s))

  start_check_free :
      (now : ℕ) (raw : Option Text) (phone : Text) (s : State)
      → normalize_phone is_digit raw ≡ some phone
      → IsUnique s.pending
      → get phone s.accounts ≡ none
      → get phone s.pending ≡ none
      → start_check is_digit now raw s ≡ (purge_expired now s, inr phone)
  unfolding start_check
  start_check_free now raw phone s e u absent free =
      let gone : get phone (purge_expired now s).pending ≡ none =
        ground (arith, get-purge_expired now phone s u) in
      ground arith

  abbrev session : ℕ → ℕ → Text → Text → Session
  session t client hash tmp_name = record {
    client = client;
    hash = hash;
    ts = t;
    step = code;
    tmp_name = tmp_name;
  }

  -- The state after a start that got as far as sending a code.
  abbrev pub started : ℕ → ℕ → Option Text → Text → ℕ → Text → Text → State → State
  started asked answered raw phone client tmp_name hash s =
      (start_store answered phone client tmp_name (sent hash)
        (start_check is_digit asked raw s).0).0

  started-session :
      (asked answered : ℕ) (raw : Option Text) (phone : Text) (client : ℕ) (tmp_name hash : Text)
      (s : State)
      → normalize_phone is_digit raw ≡ some phone
      → IsUnique s.pending
      → get phone s.accounts ≡ none
      → get phone s.pending ≡ none
      → IsUnique (started asked answered raw phone client tmp_name hash s).pending
        × (get phone (started asked answered raw phone client tmp_name hash s).pending
            ≡ some (session answered client hash tmp_name))
  unfolding start_store
  started-session asked answered raw phone client tmp_name hash s e u absent free =
      rw (start_check_free asked raw phone s e u absent free) (
        put-IsUnique phone (session answered client hash tmp_name) (purge_expired asked s).pending
            (purge_expired-IsUnique asked s u),
        get-put_self phone (session answered client hash tmp_name) (purge_expired asked s).pending,
      )

  persist_succeeds :
      (env : Saving) (phone : Text) (s : State) (entry : Session) (first_name username : Text)
      → get phone s.pending ≡ some entry
      → env.me ≡ some (first_name, username)
      → contains
          (session_path is_digit phone)
          (files_saved env entry.tmp_name (session_path is_digit phone) s.files)
        ≡ true
      → env.saves_account ≡ true
      → ((persist is_digit env phone s).1 ≡ (true, added, none))
        × (get phone (persist is_digit env phone s).0.accounts
            ≡ some (or_else (strip first_name) phone, strip username))
  unfolding persist
  persist_succeeds env phone s entry first_name username e f g w = (
    ground arith,
    ground
        (arith, get-put_self phone (or_else (strip first_name) phone, strip username) s.accounts),
  )

  -- A login goes through: for a number without account and without session, `start` asks Telegram
  -- for a code, and if the code then comes within five minutes, Telegram accepts it, says who the
  -- account is, one of the two ways of saving the session leaves its file on the disk, and the row of
  -- the account can be written, then the answer is true and the account is stored under its first
  -- name (or its number, if that is blank).
  pub submit_code-start :
      (asked answered now later : ℕ) (raw : Option Text) (phone : Text) (client : ℕ)
      (tmp_name hash given : Text) (c : ℕ) (cs : Text) (reply : Text → Reply) (env : Saving)
      (first_name username : Text) (s : State)
      → normalize_phone is_digit raw ≡ some phone
      → IsUnique s.pending
      → get phone s.accounts ≡ none
      → get phone s.pending ≡ none
      → keep_if is_digit given ≡ c ∷ cs
      → reply (c ∷ cs) ≡ fine
      → now ≤ answered + session_ttl
      → env.me ≡ some (first_name, username)
      → contains (session_path is_digit phone) (
          files_saved env tmp_name
            (session_path is_digit phone)
            (purge_expired now (started asked answered raw phone client tmp_name hash s)).files)
        ≡ true
      → env.saves_account ≡ true
      → ((start_check is_digit asked raw s).1 ≡ inr phone)
        × ((submit_code is_digit now later raw given reply env
              (started asked answered raw phone client tmp_name hash s)).1
            ≡ (true, added, none))
        × (get phone
              (submit_code is_digit now later raw given reply env
                (started asked answered raw phone client tmp_name hash s)).0.accounts
            ≡ some (or_else (strip first_name) phone, strip username))
  submit_code-start asked answered now later raw phone client tmp_name hash given c cs reply env
        first_name username s e u absent free digits accepted fresh me there written =
      let s' = started asked answered raw phone client tmp_name hash s in
      let entry = session answered client hash tmp_name in
      let (unique, found) =
        started-session asked answered raw phone client tmp_name hash s e u absent free in
      let kept : get phone (purge_expired now s').pending ≡ some entry =
        ground (arith, get-purge_expired now phone s' unique) in
      let (answer, account) =
        persist_succeeds env phone (purge_expired now s') entry first_name username kept me there
          written in
      (
        ap (λ r. r.1) (start_check_free asked raw phone s e u absent free),
        rw
            (
              submit_code_valid now later raw phone given c cs reply env s' e digits,
              accepted,
              sign_in_found is_digit now later fine env phone s' entry kept,
            )
            answer,
        rw
            (
              submit_code_valid now later raw phone given c cs reply env s' e digits,
              accepted,
              sign_in_found is_digit now later fine env phone s' entry kept,
            )
            account,
      )
