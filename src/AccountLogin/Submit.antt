-- ===== src/AccountLogin/Submit.antt =====
-- account_login.py: the code, the password, and what is saved after a login.
use add_members.Base.{
  ℕ, Bool, true, false, not, ◌||◌, ◌&&◌, Option, none, some, List, [], ◌∷◌, ◌++◌, Text, get, put,
  pop, codes, contains, text_eq, if◌then◌else◌, keep_if, has_part, strip, lstrip, rstrip, nat_beq,
}
use add_members.AccountLogin.{
  code, password, Session, State, Answer, Reply, fine, raised, finish, purge_expired, invalid_phone,
  failed, empty_code, empty_password, expired, wants_password, wrong_code, code_expired,
  wrong_password, no_session, added, no_file,
}
use add_members.AccountLogin.Phone.{normalize_phone}

-- What the environment does while an account is saved: the first name and the username that
-- `get_me` returns (none if it raises), what `persist_to_permanent` does to the files if the client
-- has it and whether it returned, the client's own name of its file, whether `os.replace` works on
-- a file, whether the saved file can be read and is written to its row, and whether
-- `db.save_account` and `db.delete_account` work: both catch their errors and only log them.
pub record Saving : Type 0 where
  pub me : Option (Text × Text)
  pub can_persist : Bool
  pub permanent : List Text → List Text × Bool
  pub real_name : Option Text
  pub replaces : Text → Bool
  pub readable : Bool
  pub saves_account : Bool
  pub deletes_account : Bool

abbrev pub or_else : Text → Text → Text
or_else [] other = other
or_else (c ∷ s) other = c ∷ s

abbrev pub remove : Text → List Text → List Text
remove path files = keep_if (λ p. not (text_eq.same p path)) files

-- The client's own name is a candidate if it is there and not empty.
abbrev pub candidates : Option Text → Text → List Text
candidates none tmp_name = (tmp_name ++ codes ".session") ∷ []
candidates (some []) tmp_name = (tmp_name ++ codes ".session") ∷ []
candidates (some (c ∷ name)) tmp_name =
    ((c ∷ name) ++ codes ".session") ∷ (tmp_name ++ codes ".session") ∷ []

-- The loop over the candidates: the first file that is there and can be renamed becomes `dst`. An
-- old `dst` is removed before, also if the renaming fails then.
unfoldable pub move_first : (Text → Bool) → Text → List Text → List Text → List Text
move_first replaces dst [] files = files
move_first replaces dst (src ∷ srcs) files =
    let cleared = remove dst files in
    let later = move_first replaces dst srcs files in
    let later_cleared = move_first replaces dst srcs cleared in
    if contains src files
    then if contains src cleared && replaces src then dst ∷ remove src cleared else later_cleared
    else later

-- The files after both ways of saving the session.
abbrev pub files_saved : Saving → Text → Text → List Text → List Text
files_saved env tmp_name dst files =
    let (files', returned) = if env.can_persist then env.permanent files else (files, false) in
    if returned && contains dst files'
    then files'
    else move_first env.replaces dst (candidates env.real_name tmp_name) files'

module _ (is_digit : ℕ → Bool) where
  -- `safe_phone_filename`, for a normalized phone, and the path of the session made of it.
  abbrev pub session_path : Text → Text
  session_path phone =
      codes "saved_sessions/acc_"
      ++ rstrip (λ c. nat_beq c 43)
          (lstrip (λ c. nat_beq c 43) (keep_if (λ c. is_digit c || nat_beq c 43) phone))
      ++ codes ".session"

  -- `_persist`
  unfoldable pub persist : Saving → Text → State → State × Answer
  unfolding finish move_first strip
  persist env phone s = elim (get phone s.pending) [
    | none ↦ (s, (false, no_session, none))
    | some entry ↦ elim env.me [
      | none ↦ (finish phone false s, (false, failed, none))
      | some (first_name, username) ↦
          let dst = session_path phone in
          let saved : State = record s {
            accounts =
                if env.saves_account
                then put phone (or_else (strip first_name) phone, strip username) s.accounts
                else s.accounts;
            files = files_saved env entry.tmp_name dst s.files;
            disconnected = entry.client ∷ s.disconnected;
          } in
          let closed = finish phone false saved in
          if contains dst saved.files
          then (
            record saved {
              pending = pop phone saved.pending;
              blobs = if env.readable then phone ∷ saved.blobs else saved.blobs;
            },
            (true, added, none),
          )
          else (
            record closed {
              accounts = if env.deletes_account then pop phone closed.accounts else closed.accounts;
            },
            (false, no_file, none),
          )
    ]
  ]

  -- An exception of `sign_in`. `later` is the clock after it.
  unfoldable pub code_refused : ℕ → Text → Session → Text → State → State × Answer
  unfolding finish has_part
  code_refused later phone entry name s =
      if has_part (codes "SessionPasswordNeeded") name
      then (
        record s { pending = put phone (record entry { step = password; ts = later }) s.pending },
        (true, wants_password, some password),
      )
      else if has_part (codes "PhoneCodeInvalid") name
      then (s, (false, wrong_code, some code))
      else if has_part (codes "PhoneCodeExpired") name
      then (finish phone false s, (false, code_expired, none))
      else (finish phone false s, (false, failed, none))

  -- An exception of `check_password`.
  unfoldable pub password_refused : Text → Text → State → State × Answer
  unfolding finish has_part
  password_refused phone name s =
      if has_part (codes "PasswordHashInvalid") name
      then (s, (false, wrong_password, some password))
      else (finish phone false s, (false, failed, none))

  -- The part of `submit_code` after its checks.
  unfoldable pub sign_in : ℕ → ℕ → Reply → Saving → Text → State → State × Answer
  unfolding purge_expired code_refused persist
  sign_in now later reply env phone s =
      let s' = purge_expired now s in
      elim (get phone s'.pending) [
        | none ↦ (s', (false, expired, none))
        | some entry ↦ elim reply [
          | fine ↦ persist env phone s'
          | raised name ↦ code_refused later phone entry name s'
        ]
      ]

  -- `submit_code`: the reply is to the sign-in with the digits of the code.
  unfoldable pub submit_code :
      ℕ → ℕ → Option Text → Text → (Text → Reply) → Saving → State → State × Answer
  unfolding normalize_phone sign_in
  submit_code now later raw_phone given reply env s = elim (normalize_phone is_digit raw_phone) [
    | none ↦ (s, (false, invalid_phone, none))
    | some phone ↦ elim (keep_if is_digit given) [
      | [] ↦ (s, (false, empty_code, some code))
      | c ∷ cs ↦ sign_in now later (reply (c ∷ cs)) env phone s
    ]
  ]

  unfoldable pub check_password : ℕ → Reply → Saving → Text → State → State × Answer
  unfolding purge_expired password_refused persist
  check_password now reply env phone s =
      let s' = purge_expired now s in
      elim (get phone s'.pending) [
        | none ↦ (s', (false, expired, none))
        | some _ ↦ elim reply [
          | fine ↦ persist env phone s'
          | raised name ↦ password_refused phone name s'
        ]
      ]

  -- `submit_password`
  unfoldable pub submit_password : ℕ → Option Text → Text → Reply → Saving → State → State × Answer
  unfolding normalize_phone check_password
  submit_password now raw_phone given reply env s = elim (normalize_phone is_digit raw_phone) [
    | none ↦ (s, (false, invalid_phone, none))
    | some phone ↦ elim given [
      | [] ↦ (s, (false, empty_password, some password))
      | _ ∷ _ ↦ check_password now reply env phone s
    ]
  ]

  -- `cancel`: whether the number is valid.
  unfoldable pub cancel : Option Text → State → State × Bool
  unfolding normalize_phone finish
  cancel raw_phone s = elim (normalize_phone is_digit raw_phone) [
    | none ↦ (s, false)
    | some phone ↦ (finish phone false s, true)
  ]
