-- ===== src/GroupManager/Store/Saved.antt =====
-- group_manager.py: the settings in the cache agree with what would be loaded again.
use add_members.Base.{
  ◌≡◌, refl, Bool, true, false, Option, none, some, [], ◌∷◌, Text, text_eq, get, put, get-put,
  IsUnique, put-IsUnique, ℤ, int_eq, arith, Bool-cases, Option-cases, inl, inr,
}
use add_members.GroupManager.Store.{
  Value, Settings, defaults, Store, Database, update, loaded, db_load_settings, get_group_settings,
  set_setting,
}
use add_members.GroupManager.Store.Kept.{
  settings_of, get_group_settings_settings, replaced, get_group_settings_known,
  get_group_settings_loads, set_setting-replaced,
}

-- Both queries work.
abbrev pub works : Database
works = record { loads = true; saves = true }

get-update :
    (saved s : Settings) (k : Text)
    → IsUnique saved
    → get k (update s saved)
      ≡ elim (get k saved) as (λ _. Option Value) [ none ↦ get k s | some v ↦ some v ]
unfolding update
get-update [] s k u = refl
get-update ((key, value) ∷ saved) s k u = elim (Bool-cases (text_eq.same key k)) [
  | inl e ↦
      let same : key ≡ k = (text_eq.same_iff key k).0 e in
      let missing : get k saved ≡ none = rw (← same) u.0 in
      ground (arith, get-update saved (put key value s) k u.1, missing, get-put key k value s, e)
  | inr e ↦ ground (arith, get-update saved (put key value s) k u.1, get-put key k value s, e)
]

-- A dictionary with each key once, among them every key of the defaults.
abbrev IsWhole : Settings → Type 0
IsWhole s = IsUnique s × ((k : Text) → get k s ≡ none → get k defaults ≡ none)

pub put-IsWhole : (k : Text) (v : Value) (s : Settings) → IsWhole s → IsWhole (put k v s)
put-IsWhole k v s w = (put-IsUnique k v s w.0, λ j e. w.1 j (ground (arith, get-put k j v s, e)))

update-IsWhole : (s saved : Settings) → IsWhole s → IsWhole (update s saved)
unfolding update
update-IsWhole s [] w = w
update-IsWhole s ((key, value) ∷ saved) w =
    update-IsWhole (put key value s) saved (put-IsWhole key value s w)

-- The test for a dictionary with each key once.
abbrev has_unique : Settings → Bool
has_unique [] = true
has_unique ((k, v) ∷ s) = let rest = has_unique s in elim (get k s) [ none ↦ rest | some _ ↦ false ]

has_unique-IsUnique : (s : Settings) → has_unique s ≡ true → IsUnique s
has_unique-IsUnique [] h = tt
has_unique-IsUnique ((k, v) ∷ s) h = elim (Option-cases (get k s)) [
  | inl e ↦ (e, has_unique-IsUnique s (ground (arith, h, e)))
  | inr (w, e) ↦ ground (arith, h, e)
]

pub defaults-IsWhole : IsWhole defaults
unfolding defaults
defaults-IsWhole = (has_unique-IsUnique defaults refl, λ k e. e)

-- What is loaded, by what the table has.
abbrev pub from_table : Option Settings → Settings
from_table none = defaults
from_table (some saved) = update defaults saved

pub loaded-get :
    (chat_id : ℤ) (st : Store) → loaded works chat_id st ≡ from_table (get chat_id st.table)
unfolding loaded db_load_settings
loaded-get chat_id st = ground arith

from_table-IsWhole : (found : Option Settings) → IsWhole (from_table found)
from_table-IsWhole none = defaults-IsWhole
from_table-IsWhole (some saved) = update-IsWhole defaults saved defaults-IsWhole

get-from_table : (s : Settings) (k : Text) → IsWhole s → get k (from_table (some s)) ≡ get k s
get-from_table s k w = elim (Option-cases (get k s)) [
  | inl f ↦ rw (get-update s defaults k w.0, f) (w.1 k f)
  | inr (v, f) ↦ rw (get-update s defaults k w.0, f) refl
]

-- The cache agrees with what would be loaded.
abbrev pub IsSaved : Store → Type 0
IsSaved st =
    (c : ℤ) (s : Settings)
    → get c st.cache ≡ some s
    → IsWhole s × ((k : Text) → get k (from_table (get c st.table)) ≡ get k s)

pub replaced-IsSaved :
    (chat_id : ℤ) (s : Settings) (st : Store)
    → IsSaved st
    → IsWhole s
    → IsSaved (replaced works chat_id s st)
replaced-IsSaved chat_id s st ok w c t e = elim (Bool-cases (int_eq.same chat_id c)) [
  | inl f ↦
      let same : s ≡ t = ground (arith, e, f, get-put chat_id c s st.cache) in
      let found : get c (put chat_id s st.table) ≡ some s =
        ground (arith, f, get-put chat_id c s st.table) in
      rw (found, ← same) (w, λ k. get-from_table s k w)
  | inr f ↦
      let found : get c (put chat_id s st.table) ≡ get c st.table =
        ground (arith, f, get-put chat_id c s st.table) in
      rw found (ok c t (ground (arith, e, f, get-put chat_id c s st.cache)))
]

pub get_group_settings-IsSaved :
    (chat_id : ℤ) (st : Store)
    → IsSaved st
    → IsSaved (get_group_settings works chat_id st).0
      × IsWhole (get_group_settings works chat_id st).1
get_group_settings-IsSaved chat_id st ok = elim (Option-cases (get chat_id st.cache)) [
  | inl e ↦
      rw (get_group_settings_loads works chat_id st e, loaded-get chat_id st)
        (loaded_next e, from_table-IsWhole (get chat_id st.table))
  | inr (s, e) ↦ rw (get_group_settings_known works chat_id st s e) (ok, (ok chat_id s e).0)
]
  where
    loaded_next :
        get chat_id st.cache ≡ none
        → IsSaved (record st { cache = put chat_id (from_table (get chat_id st.table)) st.cache })
    loaded_next e c s f = elim (Bool-cases (int_eq.same chat_id c)) [
      | inl h ↦
          let found = from_table (get chat_id st.table) in
          let same : found ≡ s = ground (arith, f, h, get-put chat_id c found st.cache) in
          let here : chat_id ≡ c = (int_eq.same_iff chat_id c).0 h in
          rw (← same, ← here) (from_table-IsWhole (get chat_id st.table), λ k. refl)
      | inr h ↦
          ok c s
            (ground (arith, f, h, get-put chat_id c (from_table (get chat_id st.table)) st.cache))
    ]

pub set_setting-IsSaved :
    (chat_id : ℤ) (key : Text) (value : Value) (st : Store)
    → IsSaved st
    → IsSaved (set_setting works chat_id key value st)
set_setting-IsSaved chat_id key value st ok =
    let (_, w) = get_group_settings-IsSaved chat_id st ok in
    let whole : IsWhole (settings_of works st chat_id) =
      rw (← get_group_settings_settings works chat_id st) w in
    rw (set_setting-replaced works chat_id key value st) (
      replaced-IsSaved chat_id (put key value (settings_of works st chat_id)) st ok
        (put-IsWhole key value (settings_of works st chat_id) whole))
