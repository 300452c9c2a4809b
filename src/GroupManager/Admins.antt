-- ===== src/GroupManager/Admins.antt =====
-- group_manager.py, `is_admin`: who is an admin of a chat, asked at most every five minutes.
pub mod Never
mod Examples
use add_members.Base.{
  ℕ, ◌+◌, Bool, true, false, ◌||◌, Option, none, some, List, [], ◌∷◌, Text, codes, Dict, get, put,
  ℤ, int_eq, nat_eq, pair_eq, text_eq, ltb, seconds, if◌then◌else◌,
}

-- `_admin_cache`: the answer and when it was given.
abbrev pub Cache : Type 0
Cache = Dict (ℤ × ℕ) (Bool × ℕ)

abbrev pub admin_cache_ttl : ℕ
admin_cache_ttl = seconds 300

-- The status of a reply: a text, or a member of an enum, by its name. (Pyrogram 2.0.106, which
-- requirements.txt asks for, has the enum `ChatMemberStatus`.)
pub data Status : Type 0 where
  text enum : Text → Status

-- `m.status in ("administrator", "creator")`: a member of an enum is equal to no text. none is an
-- exception of `get_chat_member`.
abbrev pub says_admin : Option Status → Bool
says_admin none = false
says_admin (some (enum name)) = false
says_admin (some (text status)) =
    text_eq.same status (codes "administrator") || text_eq.same status (codes "creator")

-- `time.time() - cached[1] < ADMIN_CACHE_TTL`
abbrev pub is_fresh : ℕ → ℕ → Bool
is_fresh now ts = ltb now (ts + admin_cache_ttl)

-- `is_admin`: `asked` is the clock before the request and `now` after it.
unfoldable pub is_admin : ℕ → ℕ → ℤ → ℕ → Option Status → Cache → Cache × Bool
is_admin asked now chat_id user_id reply cache =
    let ok = says_admin reply in
    let fresh = put (chat_id, user_id) (ok, now) cache in
    elim (get (chat_id, user_id) cache) [
      | none ↦ (fresh, ok)
      | some (known, ts) ↦ if is_fresh asked ts then (cache, known) else (fresh, ok)
    ]
