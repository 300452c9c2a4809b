-- ===== src/AccountLogin.antt =====
-- account_login.py: adding an account by its phone number and the code that Telegram sends.
-- `State` has the sessions that wait for a code or a password, the table of accounts, the files on
-- the disk, the phones whose session is in the database, and the clients that were disconnected
-- (newest first). A client is known by a number. A request is one step, except that `start` is the
-- two parts between which it waits for Telegram (and where it refuses if no API_ID is set).
pub mod Phone
pub mod Submit
pub mod Sessions
pub mod Login
mod Examples
use add_members.Base.{
  ℕ, ◌+◌, Bool, true, false, not, ◌⊎◌, inl, inr, ◌||◌, ◌&&◌, Option, none, some, List, [], ◌∷◌,
  ◌++◌, Text, Dict, get, put, pop, codes, contains, seconds, ltb, text_eq, if◌then◌else◌, keep_if,
  has_part, strip, lstrip, rstrip, nat_beq, keys_where, map,
}
use add_members.AccountLogin.Phone.{normalize_phone}

-- The step that a session waits for, and what the caller is asked for next.
pub data Step : Type 0 where
  code password : Step

pub record Session : Type 0 where
  pub client : ℕ
  pub hash : Text
  pub ts : ℕ
  pub step : Step
  pub tmp_name : Text

pub record State : Type 0 where
  pub pending : Dict Text Session
  pub accounts : Dict Text (Text × Text)
  pub files : List Text
  pub blobs : List Text
  pub disconnected : List ℕ

-- The messages to the user, by what they say.
pub data Message : Type 0 where
  invalid_phone already_listed already_sent not_sent code_sent flood number_invalid number_banned
        failed empty_code empty_password expired wants_password wrong_code code_expired
        wrong_password no_session added no_file :
      Message

abbrev pub Answer : Type 0
Answer = Bool × Message × Option Step

-- `_SESSION_TTL`
abbrev pub session_ttl : ℕ
session_ttl = seconds 300

abbrev pub has_expired : ℕ → Session → Bool
has_expired now entry = ltb (entry.ts + session_ttl) now

-- The two files of a session that is not finished.
abbrev pub remove_files : Text → List Text → List Text
remove_files tmp_name files =
    keep_if
      (λ path. not (
        text_eq.same path (tmp_name ++ codes ".session")
        || text_eq.same path (tmp_name ++ codes ".session-journal")))
      files

-- `_close_quietly`
abbrev pub close_quietly : Session → State → State
close_quietly entry s = record s {
  disconnected = entry.client ∷ s.disconnected;
  files = remove_files entry.tmp_name s.files;
}

abbrev pub close_option : Option Session → State → State
close_option none s = s
close_option (some entry) s = close_quietly entry s

-- The loop of `_purge_expired`.
unfoldable pub purge_all : List Text → State → State
purge_all [] s = s
purge_all (phone ∷ phones) s =
    purge_all phones
      (close_option (get phone s.pending) (record s { pending = pop phone s.pending }))

unfoldable pub purge_expired : ℕ → State → State
unfolding purge_all
purge_expired now s = purge_all (keys_where (has_expired now) s.pending) s

-- `_finish`
unfoldable pub finish : Text → Bool → State → State
finish phone success s = elim (get phone s.pending) [
  | none ↦ s
  | some entry ↦ record s {
    pending = pop phone s.pending;
    disconnected = entry.client ∷ s.disconnected;
    files = if success then s.files else remove_files entry.tmp_name s.files;
  }
]

-- What a request to Telegram returns: success, or an exception with its class name.
pub data Reply : Type 0 where
  fine : Reply
  raised : (name : Text) → Reply

module _ (is_digit : ℕ → Bool) where
  -- `start` before it waits: the refusal, or the number to send a code to.
  unfoldable pub start_check : ℕ → Option Text → State → State × (Answer ⊎ Text)
  unfolding normalize_phone purge_expired
  start_check now raw_phone s = elim (normalize_phone is_digit raw_phone) [
    | none ↦ (s, inl (false, invalid_phone, none))
    | some phone ↦ elim (get phone s.accounts) [
      | some _ ↦ (s, inl (false, already_listed, none))
      | none ↦
          let s' = purge_expired now s in
          elim (get phone s'.pending) [
            | some _ ↦ (s', inl (false, already_sent, some code))
            | none ↦ (s', inr phone)
          ]
    ]
  ]

-- What came of `send_code`: a hash, nothing, or an exception with its class name.
pub data Sent : Type 0 where
  sent : (hash : Text) → Sent
  nothing : Sent
  send_raised : (name : Text) → Sent

abbrev pub send_error : Text → Message
send_error name =
    if has_part (codes "FloodWait") name
    then flood
    else if has_part (codes "PhoneNumberInvalid") name
    then number_invalid
    else if has_part (codes "PhoneNumberBanned") name
    then number_banned
    else failed

-- `start` after it has waited, with the client and the name of its file.
unfoldable pub start_store : ℕ → Text → ℕ → Text → Sent → State → State × Answer
unfolding has_part
start_store now phone client tmp_name (sent hash) s = (
  record s {
    pending =
        put phone
          (record { client = client; hash = hash; ts = now; step = code; tmp_name = tmp_name })
          s.pending;
  },
  (true, code_sent, some code),
)
start_store now phone client tmp_name nothing s =
    (record s { disconnected = client ∷ s.disconnected }, (false, not_sent, none))
start_store now phone client tmp_name (send_raised name) s = (s, (false, send_error name, none))

-- `pending_phones`: who is in the middle of a login, after the purge.
unfoldable pub pending_phones : ℕ → State → State × Dict Text Step
unfolding purge_expired
pending_phones now s =
    let s' = purge_expired now s in (s', map (λ (phone, entry). (phone, entry.step)) s'.pending)
