-- ===== src/GroupManager/Admins/Never.antt =====
-- With a library whose status is an enum, nobody is an admin.
use add_members.Base.{
  ℕ, ◌≡◌, refl, put, Bool, true, false, Option, none, some, List, [], ◌∷◌, All, get, get-put, ℤ,
  int_eq, nat_eq, pair_eq, arith, Bool-cases, Option-cases, inl, inr,
}
use add_members.GroupManager.Admins.{Cache, Status, enum, text, says_admin, is_admin, is_fresh}

-- A call of `is_admin`: the clock before and after the request, and the reply to it.
pub record Asked : Type 0 where
  pub asked : ℕ
  pub now : ℕ
  pub chat_id : ℤ
  pub user_id : ℕ
  pub reply : Option Status

-- The answers of the calls, in their order.
unfoldable pub answers : List Asked → Cache → List Bool
unfolding is_admin
answers [] cache = []
answers (a ∷ calls) cache =
    let (cache', ok) = is_admin a.asked a.now a.chat_id a.user_id a.reply cache in
    ok ∷ answers calls cache'

-- The request raised, or the status is a member of an enum, with whatever name.
abbrev pub IsEnum : Asked → Type 0
IsEnum a = elim a.reply [
  | none ↦ Unit {0}
  | some (enum name) ↦ Unit {0}
  | some (text status) ↦ false ≡ true
]

-- No entry says that somebody is an admin.
abbrev IsEmpty : Cache → Type 0
IsEmpty cache =
    (key : ℤ × ℕ) (known : Bool) (ts : ℕ) → get key cache ≡ some (known, ts) → known ≡ false

enum_refused :
    (reply : Option Status) (a : Asked) → a.reply ≡ reply → IsEnum a → says_admin reply ≡ false
enum_refused none a e h = refl
enum_refused (some (enum name)) a e h = refl
enum_refused (some (text status)) a e h = absurd (let h' : false ≡ true = rw e at h in cc)

is_admin-IsEmpty :
    (asked now : ℕ) (chat_id : ℤ) (user_id : ℕ) (reply : Option Status) (cache : Cache)
    → says_admin reply ≡ false
    → IsEmpty cache
    → ((is_admin asked now chat_id user_id reply cache).1 ≡ false)
      × IsEmpty (is_admin asked now chat_id user_id reply cache).0
unfolding is_admin
is_admin-IsEmpty asked now chat_id user_id reply cache h ok =
    elim (Option-cases (get (chat_id, user_id) cache)) [
      | inl e ↦ rw (is_admin, e, h) (refl, put_false)
      | inr ((known, ts), e) ↦ elim (Bool-cases (is_fresh asked ts)) [
        | inl f ↦ rw (is_admin, e, f) (ok (chat_id, user_id) known ts e, ok)
        | inr f ↦ rw (is_admin, e, f, h) (refl, put_false)
      ]
    ]
  where
    put_false : IsEmpty (put (chat_id, user_id) (false, now) cache)
    put_false key known ts e = elim (Bool-cases (pair_eq.same (chat_id, user_id) key)) [
      | inl f ↦ ground (arith, e, f, get-put (chat_id, user_id) key (false, now) cache)
      | inr f ↦
          ok key known ts (ground (arith, e, f, get-put (chat_id, user_id) key (false, now) cache))
    ]

answers-IsEmpty :
    (calls : List Asked) (cache : Cache)
    → All IsEnum calls
    → IsEmpty cache
    → All (λ ok. ok ≡ false) (answers calls cache)
unfolding answers
answers-IsEmpty [] cache h ok = tt
answers-IsEmpty (a ∷ calls) cache h ok =
    let (refused, still) =
      is_admin-IsEmpty a.asked a.now a.chat_id a.user_id a.reply cache
        (enum_refused a.reply a refl h.0) ok in
    (
      refused,
      answers-IsEmpty calls (is_admin a.asked a.now a.chat_id a.user_id a.reply cache).0 h.1 still,
    )

-- Nobody is ever an admin. Starting from an empty cache, and if the status in every reply is a member
-- of an enum (whatever its name is, also ADMINISTRATOR or OWNER) or the request raises, every call of
-- `is_admin` answers no, for all users, chats and times.
pub answers-false :
    (calls : List Asked) → All IsEnum calls → All (λ ok. ok ≡ false) (answers calls [])
answers-false calls h = answers-IsEmpty calls [] h (λ _ _ _ e. ground (arith, e))
