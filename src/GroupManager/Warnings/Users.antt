-- ===== src/GroupManager/Warnings/Users.antt =====
-- group_manager.py: whom `add_warn` is about.
use add_members.Base.{
  ℕ, ◌≡◌, ◌≢◌, refl, Bool, false, [], ◌∷◌, ◌++◌, All, get, get-put, get-pop, leb, ℤ, int_eq, nat_eq,
  pair_eq, pair_beq_iff, sym, ◌∙◌, arith, Bool-cases, inl, inr,
}
use add_members.GroupManager.Warnings

-- Whom a call of a warning is about.
abbrev pub user_of : Warnings.Call → ℕ
user_of (Warnings.restricted uid _) = uid
user_of (Warnings.banned uid _) = uid
user_of (Warnings.unbanned uid) = uid
user_of (Warnings.told_limit uid _) = uid
user_of (Warnings.told_warning uid _ _) = uid

warn_calls_users :
    (s : Warnings.Settings) (a : Warnings.WarnAction) (uid limit : ℕ)
    → All
        (λ c. user_of c ≡ uid)
        (Warnings.warn_calls s a uid ++ (Warnings.told_limit uid limit ∷ []))
warn_calls_users s Warnings.mute uid limit = (refl, (refl, tt))
warn_calls_users s Warnings.kick uid limit = (refl, (refl, (refl, tt)))
warn_calls_users s Warnings.ban uid limit = (refl, (refl, tt))
warn_calls_users s Warnings.other uid limit = (refl, tt)

pub add_warn_users :
    (works : Bool) (s : Warnings.Settings) (chat_id : ℤ) (uid : ℕ) (table : Warnings.Table)
    → All (λ c. user_of c ≡ uid) (Warnings.add_warn works s chat_id uid table).1
unfolding Warnings.add_warn
add_warn_users works s chat_id uid table =
    elim (Bool-cases (leb s.warn_limit (Warnings.db_warn_add works chat_id uid 1 table).1)) [
      | inl e ↦ rw (e, Warnings.add_warn) (warn_calls_users s s.warn_action uid s.warn_limit)
      | inr e ↦ rw (e, Warnings.add_warn) (refl, tt)
    ]

pub get-db_warn_reset :
    (works : Bool) (chat_id : ℤ) (uid : ℕ) (table : Warnings.Table) (key : ℤ × ℕ)
    → key ≢ (chat_id, uid)
    → get key (Warnings.db_warn_reset works chat_id uid table) ≡ get key table
unfolding Warnings.db_warn_reset
get-db_warn_reset works chat_id uid table key h =
    let other : pair_eq.same (chat_id, uid) key ≡ false = differs in
    ground (arith, other, get-pop (chat_id, uid) key table)
  where
    differs : pair_eq.same (chat_id, uid) key ≡ false
    differs = elim (Bool-cases (pair_eq.same (chat_id, uid) key)) [
      | inl e ↦ absurd (h (sym ((pair_beq_iff int_eq nat_eq (chat_id, uid) key).0 e)))
      | inr e ↦ e
    ]

get-db_warn_add :
    (works : Bool) (chat_id : ℤ) (uid : ℕ) (table : Warnings.Table) (key : ℤ × ℕ)
    → key ≢ (chat_id, uid)
    → get key (Warnings.db_warn_add works chat_id uid 1 table).0 ≡ get key table
unfolding Warnings.db_warn_add
get-db_warn_add works chat_id uid table key h =
    elim (Bool-cases (pair_eq.same (chat_id, uid) key)) [
      | inl e ↦ absurd (h (sym ((pair_beq_iff int_eq nat_eq (chat_id, uid) key).0 e)))
      | inr e ↦ elim (Bool-cases works) [
        | inl w ↦ rw (w, Warnings.db_warn_add, get-put (chat_id, uid) key _ table, e) refl
        | inr w ↦ rw (w, Warnings.db_warn_add) refl
      ]
    ]

pub get-add_warn :
    (works : Bool) (s : Warnings.Settings) (chat_id : ℤ) (uid : ℕ) (table : Warnings.Table)
    (key : ℤ × ℕ)
    → key ≢ (chat_id, uid)
    → get key (Warnings.add_warn works s chat_id uid table).0 ≡ get key table
unfolding Warnings.add_warn
get-add_warn works s chat_id uid table key h =
    let added = (Warnings.db_warn_add works chat_id uid 1 table).0 in
    elim (Bool-cases (leb s.warn_limit (Warnings.db_warn_add works chat_id uid 1 table).1)) [
      | inl e ↦
          rw (e, Warnings.add_warn)
            (get-db_warn_reset works chat_id uid added key h
              ∙ get-db_warn_add works chat_id uid table key h)
      | inr e ↦ rw (e, Warnings.add_warn) (get-db_warn_add works chat_id uid table key h)
    ]
