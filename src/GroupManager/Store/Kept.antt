-- ===== src/GroupManager/Store/Kept.antt =====
-- group_manager.py: what the chats read, as one function of chat and key.
use add_members.Base.{
  ◌≡◌, ◌≢◌, ◌⊎◌, true, subst, refl, ◌&&◌, Option, none, some, [], ◌∷◌, Text, Dict, get, put,
  get-put, get-put_self, Key, ℤ, int_eq, text_eq, if◌then◌else◌, arith, Bool-cases, Option-cases,
  inl, inr,
}
use add_members.GroupManager.Store.{
  Value, Settings, Store, Database, db_load_settings, db_save_settings, loaded, get_group_settings,
  save_group_settings, set_setting,
}

-- What a chat reads for a key.
abbrev pub setting : Database → Store → ℤ → Text → Option Value
setting db st chat_id key = get key (get_group_settings db chat_id st).1

abbrev pub settings_of : Database → Store → ℤ → Settings
settings_of db st chat_id = elim (get chat_id st.cache) [ none ↦ loaded db chat_id st | some s ↦ s ]

pub get_group_settings_settings :
    (db : Database) (chat_id : ℤ) (st : Store)
    → (get_group_settings db chat_id st).1 ≡ settings_of db st chat_id
unfolding get_group_settings
get_group_settings_settings db chat_id st = ground arith

pub loaded_table :
    (db : Database) (chat_id : ℤ) (s t : Store)
    → get chat_id s.table ≡ get chat_id t.table
    → loaded db chat_id s ≡ loaded db chat_id t
unfolding loaded db_load_settings
loaded_table db chat_id s t h = ground (arith, h)

module _ {K : Type 0} ⦃e : Key K⦄ {V : Type 0} where
  put_twice : (k : K) (v w : V) (d : Dict K V) → put k v (put k w d) ≡ put k v d
  put_twice k v w [] = ground (arith, e.same_iff k k)
  put_twice k v w ((j, x) ∷ d) = ground (arith, e.same_iff k k, put_twice k v w d)

-- The settings of a chat are replaced in the cache, and saved if the query works.
abbrev pub replaced : Database → ℤ → Settings → Store → Store
replaced db chat_id s st = record {
  cache = put chat_id s st.cache;
  table = if db.saves then put chat_id s st.table else st.table;
}

save_group_settings-put :
    (db : Database) (chat_id : ℤ) (s : Settings) (st : Store)
    → save_group_settings db chat_id (record st { cache = put chat_id s st.cache })
      ≡ replaced db chat_id s st
unfolding save_group_settings db_save_settings
save_group_settings-put db chat_id s st =
    rw (get-put_self chat_id s st.cache)
      (elim (Bool-cases db.saves) [ inl e ↦ rw e refl | inr e ↦ rw e refl ])

pub get_group_settings_known :
    (db : Database) (chat_id : ℤ) (st : Store) (s : Settings)
    → get chat_id st.cache ≡ some s
    → get_group_settings db chat_id st ≡ (st, s)
unfolding get_group_settings
get_group_settings_known db chat_id st s e = rw (get_group_settings, e) refl

pub get_group_settings_loads :
    (db : Database) (chat_id : ℤ) (st : Store)
    → get chat_id st.cache ≡ none
    → get_group_settings db chat_id st
      ≡ (record st { cache = put chat_id (loaded db chat_id st) st.cache }, loaded db chat_id st)
unfolding get_group_settings
get_group_settings_loads db chat_id st e = rw (get_group_settings, e) refl

-- The settings are replaced after they were read.
pub replaced-get_group_settings :
    (db : Database) (chat_id : ℤ) (s : Settings) (st : Store)
    → save_group_settings db chat_id (record st {
      cache = put chat_id s (get_group_settings db chat_id st).0.cache;
      table = (get_group_settings db chat_id st).0.table;
    })
      ≡ replaced db chat_id s st
replaced-get_group_settings db chat_id s st = elim (Option-cases (get chat_id st.cache)) [
  | inl e ↦
      rw
        (
          get_group_settings_loads db chat_id st e,
          put_twice chat_id s (loaded db chat_id st) st.cache,
        )
        (save_group_settings-put db chat_id s st)
  | inr (t, e) ↦
      rw (get_group_settings_known db chat_id st t e) (save_group_settings-put db chat_id s st)
]

pub set_setting-replaced :
    (db : Database) (chat_id : ℤ) (key : Text) (value : Value) (st : Store)
    → set_setting db chat_id key value st
      ≡ replaced db chat_id (put key value (settings_of db st chat_id)) st
unfolding set_setting
set_setting-replaced db chat_id key value st =
    rw (← get_group_settings_settings db chat_id st) (
      replaced-get_group_settings db chat_id (put key value (get_group_settings db chat_id st).1)
        st)

settings_of-replaced :
    (db after : Database) (chat_id c : ℤ) (s : Settings) (st : Store)
    → settings_of after (replaced db chat_id s st) c
      ≡ (if int_eq.same chat_id c then s else settings_of after st c)
settings_of-replaced db after chat_id c s st = elim (Bool-cases (int_eq.same chat_id c)) [
  | inl e ↦ ground (arith, e, get-put chat_id c s st.cache)
  | inr e ↦
      let in_table : get c (replaced db chat_id s st).table ≡ get c st.table =
        ground (arith, e, get-put chat_id c s st.table) in
      ground (
        arith,
        e,
        get-put chat_id c s st.cache,
        loaded_table after c (replaced db chat_id s st) st in_table,
      )
]

-- The chat is in the cache, or its settings can be loaded.
abbrev pub Readable : Database → Store → ℤ → Type 0
Readable db st chat_id = (get chat_id st.cache ≢ none) ⊎ (db.loads ≡ true)

settings_of-Readable :
    (db db' : Database) (st : Store) (chat_id : ℤ)
    → Readable db st chat_id
    → Readable db' st chat_id
    → settings_of db st chat_id ≡ settings_of db' st chat_id
unfolding loaded db_load_settings
settings_of-Readable db db' st chat_id h k = elim (Option-cases (get chat_id st.cache)) [
  | inl e ↦
      let a : db.loads ≡ true = elim h [ inl n ↦ absurd (n e) | inr a ↦ a ] in
      let b : db'.loads ≡ true = elim k [ inl n ↦ absurd (n e) | inr b ↦ b ] in
      ground (arith, e, a, b)
  | inr (s, e) ↦ ground (arith, e)
]

-- The store is one function of chat and key, however its cache and its table stand: setting a key
-- changes the function at that chat and key and nowhere else. The database may answer differently at
-- the read before, at the setting and at the read after, and the save may fail, on two conditions. At
-- the read before and at the setting, the chat that is set is in the cache or can be loaded; and if
-- the reads are of another chat, the database answers alike at both.
pub set_setting-setting :
    (before db after : Database) (chat_id c : ℤ) (key k : Text) (value : Value) (st : Store)
    → Readable before st chat_id
    → Readable db st chat_id
    → (chat_id ≢ c → before ≡ after)
    → setting after (set_setting db chat_id key value st) c k
      ≡ (if int_eq.same chat_id c && text_eq.same key k then some value else setting before st c k)
set_setting-setting before db after chat_id c key k value st h g same =
    rw
      (
        get_group_settings_settings after c (set_setting db chat_id key value st),
        get_group_settings_settings before c st,
        set_setting-replaced db chat_id key value st,
        settings_of-replaced db after chat_id c (put key value (settings_of db st chat_id)) st,
      )
      (elim (Bool-cases (int_eq.same chat_id c)) [
        | inl e ↦
            let at : chat_id ≡ c = (int_eq.same_iff chat_id c).0 e in
            let agree : settings_of before st c ≡ settings_of db st c =
              subst (λ d. settings_of before st d ≡ settings_of db st d) at
                (settings_of-Readable before db st chat_id h g) in
            rw (e, at, agree) (get-put key k value (settings_of db st c))
        | inr e ↦
            let other : before ≡ after =
              same (λ at. ground (arith, e, (int_eq.same_iff chat_id c).1 at)) in
            rw (e, other) refl
      ])
