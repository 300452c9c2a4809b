-- ===== src/AddEngine/Target/Account.antt =====
-- add_engine.py, `resolve_target_for_account`, `target_username_hint` and `get_target_title`: the
-- target as one account sees it.
use add_members.Base.{
  ◌||◌, Option, none, some, List, [], ◌∷◌, Text, codes, ℤ, starts_with, has_part, strip, lstrip,
  if◌then◌else◌,
}
use add_members.Db.Config.{Config, is_zero, is_empty}
use add_members.AddEngine.Target.{
  Library, ChatRef, id, name, me, is_at, normalize_chat_ref, show_int, or_text,
}

-- What `get_chat` gives: the id, if there is one, and the title, perhaps empty.
pub record Chat : Type 0 where
  pub chat_id : Option ℤ
  pub title : Text

-- What Telegram answers to an account; none is an exception. A peer is what the client makes of it.
pub record Client (P : Type 0) : Type 0 where
  pub get_chat : ChatRef → Option Chat
  pub resolve_peer : ChatRef → Option P

-- `str`
abbrev pub show_ref : ChatRef → Text
show_ref (id z) = show_int z
show_ref (name s) = s

-- `getattr(chat, "id", None) or ref`
abbrev pub dest_of : ChatRef → Chat → ChatRef
dest_of ref chat = elim chat.chat_id [ none ↦ ref | some z ↦ if is_zero z then ref else id z ]

-- The references to try: that of the hint if it is a text, and then the target. None is a
-- ValueError.
unfoldable pub attempts : Library → Text → ChatRef → Option (List ChatRef)
unfolding normalize_chat_ref strip
attempts lib hint target =
    if is_empty (strip hint)
    then some (target ∷ [])
    else elim (normalize_chat_ref lib (strip hint)) [
      | none ↦ none
      | some (id _) ↦ some (target ∷ [])
      | some (name s) ↦ some (name s ∷ target ∷ [])
    ]

module _ {P : Type 0} (client : Client P) where
  -- The loop over the references.
  unfoldable pub try_refs : List ChatRef → Option (ChatRef × P × Text)
  try_refs [] = none
  try_refs (ref ∷ refs) =
      let rest = try_refs refs in
      elim (client.get_chat ref) [
        | none ↦ rest
        | some chat ↦
            let dest = dest_of ref chat in
            let title = or_text chat.title (show_ref dest) in
            elim (client.resolve_peer ref) [
              | some peer ↦ some (dest, peer, title)
              | none ↦ elim (client.resolve_peer dest) [
                | some peer ↦ some (dest, peer, title)
                | none ↦ rest
              ]
            ]
      ]

  -- The last try, by the target alone.
  unfoldable pub try_target : ChatRef → Option (ChatRef × P × Text)
  try_target target = elim (client.resolve_peer target) [
    | none ↦ none
    | some peer ↦ some (target, peer, show_ref target)
  ]

  -- `resolve_target_for_account`; none is an exception.
  unfoldable pub resolve_target_for_account : Library → ChatRef → Text → Option (ChatRef × P × Text)
  unfolding attempts try_refs try_target
  resolve_target_for_account lib target hint = elim (attempts lib hint target) [
    | none ↦ none
    | some refs ↦ elim (try_refs refs) [ some found ↦ some found | none ↦ try_target target ]
  ]

  -- The loop of `get_target_title`.
  unfoldable pub first_title : List ChatRef → Text → Text
  first_title [] default = default
  first_title (ref ∷ refs) default =
      let rest = first_title refs default in
      elim (client.get_chat ref) [ none ↦ rest | some chat ↦ or_text chat.title rest ]

  -- `get_target_title`; none is an exception.
  unfoldable pub get_target_title : Library → ChatRef → Text → Text → Option Text
  unfolding attempts first_title
  get_target_title lib target hint default = elim (attempts lib hint target) [
    | none ↦ none
    | some refs ↦ some (first_title refs default)
  ]

abbrev default_hint : Text → Option Text
default_hint fallback =
    let s = lstrip is_at (strip fallback) in if is_empty s then none else some (64 ∷ s)

-- `target_username_hint`; the outer none is an exception.
unfoldable pub target_username_hint : Library → Config → Text → Option (Option Text)
unfolding normalize_chat_ref has_part strip lstrip
target_username_hint lib cfg fallback =
    let s = strip cfg.group_name in
    if starts_with s (64 ∷ []) || has_part me s || starts_with s (codes "http")
    then elim (normalize_chat_ref lib s) [
      | none ↦ none
      | some (name ref) ↦ some (some ref)
      | some (id _) ↦ some (default_hint fallback)
    ]
    else some (default_hint fallback)
