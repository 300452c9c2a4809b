-- ===== src/AddEngine/Target.antt =====
-- add_engine.py: references to chats, and the choice of the target group.
mod Links
pub mod Usernames
pub mod Choice
pub mod Account
pub mod Reached
mod Examples
use add_members.Base.{
  ℕ, Bool, true, false, not, ◌&&◌, ◌||◌, Option, none, some, List, [], ◌∷◌, ◌++◌, Text, codes, ℤ,
  pos, negsuc, int_eq, nat_beq, leb, length, drop, all, starts_with, has_part, strip, lstrip,
  rstrip, show, suc, if◌then◌else◌,
}
use add_members.Db.Config.{Tables, Config, Queries, set_config, is_zero, is_empty}

-- The classes of Python: `str.isdigit` of one character, and `int` of a text, which may raise.
pub record Library : Type 0 where
  pub is_digit : ℕ → Bool
  pub int_of : Text → Option ℤ

-- What the functions return: a number, or a text.
pub data ChatRef : Type 0 where
  id : ℤ → ChatRef
  name : Text → ChatRef

abbrev pub is_minus : ℕ → Bool
is_minus c = nat_beq c 45

abbrev pub is_slash : ℕ → Bool
is_slash c = nat_beq c 47

abbrev pub is_at : ℕ → Bool
is_at c = nat_beq c 64

abbrev pub me : Text
me = codes "t.me/"

abbrev pub is_letter : ℕ → Bool
is_letter c = (leb 65 c && leb c 90) || (leb 97 c && leb c 122)

abbrev pub is_word : ℕ → Bool
is_word c = is_letter c || (leb 48 c && leb c 57) || nat_beq c 95

-- `re.fullmatch(r"[A-Za-z][A-Za-z0-9_]{3,31}", s)`
abbrev pub is_username : Text → Bool
is_username [] = false
is_username (c ∷ s) = is_letter c && all is_word s && leb 3 (length s) && leb (length s) 31

-- `s.lstrip("-").isdigit()`
unfoldable pub is_number : Library → Text → Bool
unfolding lstrip
is_number lib s = not (is_empty (lstrip is_minus s)) && all lib.is_digit (lstrip is_minus s)

-- `int(s)`
abbrev pub number : Library → Text → Option ChatRef
number lib s = elim (lib.int_of s) [ none ↦ none | some z ↦ some (id z) ]

-- `s.split(word, 1)[1]`, for a word that is in the text.
unfoldable pub after_part : Text → Text → Text
after_part word [] = []
after_part word (c ∷ s) =
    let rest = after_part word s in
    if starts_with (c ∷ s) word then drop (length word) (c ∷ s) else rest

-- `s.split(c)[0]`
unfoldable pub before : ℕ → Text → Text
before c [] = []
before c (d ∷ s) = let rest = before c s in if nat_beq d c then [] else d ∷ rest

unfoldable pub tail_of : Text → Text
unfolding after_part before lstrip rstrip
tail_of s = rstrip is_slash (lstrip is_slash (before 63 (after_part me s)))

-- The tail of a link.
unfoldable pub normalize_tail : Library → Text → Text → Option ChatRef
unfolding is_number lstrip
normalize_tail lib s tail =
    if is_empty tail || starts_with tail (codes "+") || starts_with tail (codes "joinchat/")
    then some (name s)
    else if is_number lib tail
    then number lib tail
    else some (name (64 ∷ lstrip is_at tail))

-- After `strip`.
unfoldable pub normalize_stripped : Library → Text → Option ChatRef
unfolding is_number has_part tail_of normalize_tail
normalize_stripped lib s =
    if is_empty s
    then some (name s)
    else if is_number lib s
    then number lib s
    else if has_part me s
    then normalize_tail lib s (tail_of s)
    else if starts_with s (64 ∷ [])
    then some (name s)
    else if is_username s
    then some (name (64 ∷ s))
    else some (name s)

-- `normalize_chat_ref`; none is a ValueError of `int`.
unfoldable pub normalize_chat_ref : Library → Text → Option ChatRef
unfolding normalize_stripped strip
normalize_chat_ref lib raw = normalize_stripped lib (strip raw)

-- A reference by its form: the test `explicit` of `resolve_add_target`.
unfoldable pub is_explicit : Library → Text → Bool
unfolding is_number has_part
is_explicit lib s =
    not (is_empty s)
    && (starts_with s (64 ∷ []) || has_part me s || starts_with s (codes "http") || is_number lib s)

-- `_looks_like_chat_ref`, after `strip`.
unfoldable pub looks_like_chat_ref : Library → Text → Bool
unfolding is_explicit strip
looks_like_chat_ref lib raw = is_explicit lib (strip raw) || is_username (strip raw)

-- `resolve_add_target`: `dest` is the answer of `most_used_add_dest`, and `fallback` the name
-- DEFAULT_TARGET_USERNAME.
unfoldable pub resolve_add_target : Library → Config → Option ℤ → Text → Option ChatRef
unfolding is_explicit looks_like_chat_ref normalize_chat_ref strip lstrip
resolve_add_target lib cfg dest fallback =
    let gid : ℤ = elim cfg.group_id [ none ↦ pos 0 | some z ↦ z ] in
    let title = strip cfg.group_name in
    let most_used : ℤ = elim dest [ none ↦ pos 0 | some z ↦ z ] in
    if not (is_zero gid)
    then some (id gid)
    else if is_explicit lib title
    then normalize_chat_ref lib title
    else if not (is_zero most_used)
    then some (id most_used)
    else if looks_like_chat_ref lib title
    then normalize_chat_ref lib title
    else some (name (64 ∷ lstrip is_at fallback))

abbrev pub show_int : ℤ → Text
show_int (pos n) = show n
show_int (negsuc n) = 45 ∷ show (suc n)

-- `s or t`
abbrev pub or_text : Text → Text → Text
or_text s t = if is_empty s then t else s

-- `persist_target_setting`
unfoldable pub persist_target_setting :
    Library → Queries → Text → Tables → Option (Tables × ChatRef)
unfolding normalize_chat_ref set_config strip
persist_target_setting lib works raw db = elim (normalize_chat_ref lib raw) [
  | none ↦ none
  | some (id z) ↦ some (set_config works z (or_text (strip raw) (show_int z)) true [] db, id z)
  | some (name ref) ↦
      let title = strip (or_text ref raw) in
      some (set_config works (pos 0) title true [] db, name title)
]
