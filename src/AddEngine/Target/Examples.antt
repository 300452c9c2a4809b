-- ===== src/AddEngine/Target/Examples.antt =====
-- Tests and instances of the theorems.
use add_members.Base.{
  ℕ, ◌≡◌, ◌↔◌, ◌⊎◌, refl, Option, none, some, List, [], ◌∷◌, ◌-◌, Text, codes, ℤ, pos, negsuc,
  value_from, is_ascii_digit, is_space, show, all, starts_with, drop, if◌then◌else◌, All, arith,
}
use add_members.Db.Config.{Tables}
use add_members.AddEngine.Target.{Library, ChatRef, id, name, normalize_chat_ref}
use add_members.AddEngine.Target.Links.{schemes, endings, link}
use add_members.AddEngine.Target.Usernames.{IsDigitTest, normalize_chat_ref-name}
use add_members.AddEngine.Target.Account.{Client, attempts, resolve_target_for_account}
use add_members.AddEngine.Target.Reached.{IsDead, resolve_target_for_account-none}

-- ASCII digits after at most one minus.
abbrev ascii_int : Text → Option ℤ
ascii_int s =
    if starts_with s (45 ∷ [])
    then if all is_ascii_digit (drop 1 s) then some (negsuc (value_from 0 (drop 1 s) - 1)) else none
    else if all is_ascii_digit s
    then some (pos (value_from 0 s))
    else none

abbrev ascii : Library
ascii = record { is_digit = is_ascii_digit; int_of = ascii_int }

ascii-IsDigitTest : IsDigitTest ascii
unfolding is_ascii_digit
ascii-IsDigitTest = record { no_letter = λ c h. ground (arith, h); no_at = refl }

private_link :
    normalize_chat_ref ascii (codes "https://t.me/+abc") ≡ some (name (codes "https://t.me/+abc"))
unfolding normalize_chat_ref is_ascii_digit value_from
private_link = refl

group_number : normalize_chat_ref ascii (codes " -1001 ") ≡ some (id (negsuc 1000))
unfolding normalize_chat_ref is_ascii_digit value_from
group_number = refl

two_minus : normalize_chat_ref ascii (codes "--5") ≡ none
unfolding normalize_chat_ref is_ascii_digit value_from
two_minus = refl

-- A link to a message of a private group is read as a public name.
private_message :
    normalize_chat_ref ascii (codes "https://t.me/c/1234/5") ≡ some (name (codes "@c/1234/5"))
unfolding normalize_chat_ref is_ascii_digit value_from
private_message = refl

normalize_chat_ref-name_example :
    (normalize_chat_ref ascii (codes "gamers") ≡ some (name (codes "@gamers")))
    × (normalize_chat_ref ascii (codes "@gamers") ≡ some (name (codes "@gamers")))
    × All
        (λ scheme.
          All
            (λ ending.
              normalize_chat_ref ascii (link scheme (codes "gamers") ending)
              ≡ some (name (codes "@gamers")))
            (endings (codes "s=1")))
        schemes
unfolding is_space
normalize_chat_ref-name_example =
    normalize_chat_ref-name ascii ascii-IsDigitTest (codes "gamers") (codes "s=1") refl
      (refl, (refl, (refl, tt)))

abbrev old : Tables
old = record { config_tbl = []; active = some (negsuc 99, codes "old group") }

-- An account that knows the chat by its public name alone.
abbrev new_account : Client ℕ
new_account = record {
  get_chat = λ ref. elim ref [
    | id _ ↦ none
    | name _ ↦ some (record { chat_id = some (negsuc 7); title = [] })
  ];
  resolve_peer = λ ref. elim ref [ id _ ↦ none | name _ ↦ some 3 ];
}

by_name :
    resolve_target_for_account new_account ascii (id (negsuc 7)) (codes "@gamers")
    ≡ some (id (negsuc 7), 3, codes "-8")
unfolding resolve_target_for_account is_ascii_digit show
by_name = refl

resolve_target_for_account-none_example :
    (resolve_target_for_account new_account ascii (id (negsuc 7)) [] ≡ none) ↔ (
      (attempts ascii [] (id (negsuc 7)) ≡ none)
      ⊎ ((refs : List ChatRef) × (attempts ascii [] (id (negsuc 7)) ≡ some refs)
          × All (IsDead new_account) refs
          × (new_account.resolve_peer (id (negsuc 7)) ≡ none)))
resolve_target_for_account-none_example =
    resolve_target_for_account-none new_account ascii (id (negsuc 7)) []
