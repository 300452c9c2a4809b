-- ===== src/AccountLogin/Examples.antt =====
-- Tests and instances of the theorems.
use add_members.Base.{
  ◌≡◌, ◌≢◌, refl, true, none, some, [], ◌∷◌, Text, codes, contains, seconds, get, keep_if,
  is_ascii_digit, is_space, arith, inr, text_eq, IsUnique, strip, lstrip, rstrip, if◌then◌else◌,
}
use add_members.AccountLogin.{
  code, State, Reply, fine, raised, added, purge_expired, start_check, start_store,
}
use add_members.AccountLogin.Submit.{
  Saving, or_else, session_path, files_saved, submit_code, move_first, cancel,
}
use add_members.AccountLogin.Phone.{normalize_phone, cleaned, international}
use add_members.AccountLogin.Login
use add_members.AccountLogin.Sessions.{LoggedIn}

abbrev phone : Text
phone = codes "+989121234567"

abbrev raw : Text
raw = codes "09121234567"

normal : normalize_phone is_ascii_digit (some raw) ≡ some phone
unfolding normalize_phone is_ascii_digit is_space cleaned international
normal = refl

abbrev empty : State
empty = record { pending = []; accounts = []; files = []; blobs = []; disconnected = [] }

-- Telegram takes the code 12345 and no other.
abbrev telegram : Text → Reply
telegram digits =
    if text_eq.same digits (codes "12345") then fine else raised (codes "PhoneCodeInvalid")

abbrev saves : Saving
saves = record {
  me = some (codes "Ali", []);
  can_persist = true;
  permanent = λ files. (session_path is_ascii_digit phone ∷ files, true);
  real_name = none;
  replaces = λ path. true;
  readable = true;
  saves_account = true;
  deletes_account = true;
}

abbrev waiting : State
waiting = Login.started is_ascii_digit 0 0 (some raw) phone 3 (codes "tmp") (codes "hash") empty

the_code : keep_if is_ascii_digit (codes "12 345") ≡ codes "12345"
unfolding is_ascii_digit
the_code = refl

the_file :
    contains (session_path is_ascii_digit phone) (
      files_saved saves
        (codes "tmp")
        (session_path is_ascii_digit phone)
        (purge_expired (seconds 60) waiting).files)
    ≡ true
unfolding is_ascii_digit move_first lstrip rstrip
the_file = refl

submit_code-start_example :
    ((start_check is_ascii_digit 0 (some raw) empty).1 ≡ inr phone)
    × ((submit_code is_ascii_digit
          (seconds 60)
          (seconds 61)
          (some raw)
          (codes "12 345")
          telegram
          saves
          waiting).1
        ≡ (true, added, none))
    × (get phone
          (submit_code is_ascii_digit
            (seconds 60)
            (seconds 61)
            (some raw)
            (codes "12 345")
            telegram
            saves
            waiting).0.accounts
        ≡ some (or_else (strip (codes "Ali")) phone, strip []))
submit_code-start_example =
    Login.submit_code-start is_ascii_digit 0 0 (seconds 60) (seconds 61) (some raw) phone 3
      (codes "tmp") (codes "hash") (codes "12 345") 49 (codes "2345") telegram saves (codes "Ali")
      [] empty normal tt refl refl the_code refl (omega arith) refl the_file refl

waiting-IsUnique : IsUnique waiting.pending
unfolding start_check start_store purge_expired is_ascii_digit is_space
waiting-IsUnique = (refl, tt)

waiting_found :
    get phone waiting.pending
    ≡ some (record { client = 3; hash = codes "hash"; ts = 0; step = code; tmp_name = codes "tmp" })
unfolding start_check start_store purge_expired is_ascii_digit is_space
waiting_found = refl

waiting_absent : get phone waiting.accounts ≡ none
unfolding start_check start_store purge_expired is_ascii_digit is_space
waiting_absent = refl

now_present :
    get phone
      (submit_code is_ascii_digit
        (seconds 60)
        (seconds 61)
        (some raw)
        (codes "12 345")
        telegram
        saves
        waiting).0.accounts
    ≢ none
now_present = λ e. absurd (ground (arith, submit_code-start_example))

submit_code-LoggedIn_example :
    LoggedIn is_ascii_digit saves
      (seconds 60)
      phone
      waiting
      (telegram (keep_if is_ascii_digit (codes "12 345")))
      (submit_code is_ascii_digit
        (seconds 60)
        (seconds 61)
        (some raw)
        (codes "12 345")
        telegram
        saves
        waiting)
submit_code-LoggedIn_example =
    Login.submit_code-LoggedIn is_ascii_digit (seconds 60) (seconds 61) (some raw) phone
      (codes "12 345") telegram saves waiting normal waiting-IsUnique waiting_absent now_present

cancelled : (cancel is_ascii_digit (some raw) waiting).0.files ≡ []
unfolding cancel start_check start_store purge_expired is_ascii_digit is_space
cancelled = refl
