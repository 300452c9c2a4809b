-- ===== src/Db/Blocklist.antt =====
-- The list of blocked users grows only.
use add_members.Base.{
  ℕ, ◌≡◌, Bool, true, false, [], ◌∷◌, map, Text, Dict, put, contains, contains-append,
  contains-keys, get-put, get-put_self, nat_eq, nat_beq_iff, pair_eq, pair_beq_iff, ℤ, int_eq,
  arith, if◌then◌else◌,
}
use add_members.Db.{
  Db, added_ids, add_do_not_add, is_do_not_add, delete_user, mark_added, with_added,
  purge_added_users, is_added_anywhere, get_blocked_user_ids,
}

-- The reading of both tables.
abbrev pub Blocked : ℕ → Db → Type 0
Blocked uid db = contains uid (get_blocked_user_ids true true db) ≡ true

-- A user is read as blocked exactly if one of the two single checks says so.
pub contains-get_blocked_user_ids :
    (uid : ℕ) (db : Db)
    → contains uid (get_blocked_user_ids true true db)
      ≡ (if is_added_anywhere true uid db then true else is_do_not_add true uid db)
unfolding get_blocked_user_ids is_added_anywhere is_do_not_add
contains-get_blocked_user_ids uid db = ground (
  arith,
  contains-append uid (added_ids db.added_history) (map (λ (j, _). j) db.do_not_add),
  contains-keys uid db.do_not_add,
)

contains-added_ids-put :
    (uid : ℕ) (key : ℤ × ℕ) (phone : Text) (rows : Dict (ℤ × ℕ) Text)
    → contains uid (added_ids rows) ≡ true
    → contains uid (added_ids (put key phone rows)) ≡ true
contains-added_ids-put uid key phone [] h = ground arith
contains-added_ids-put uid key phone ((k, p) ∷ rows) h = ground (
  arith,
  contains-added_ids-put uid key phone rows,
  pair_beq_iff int_eq nat_eq k key,
  ap_snd k key,
)
  where
    ap_snd : (a b : ℤ × ℕ) → a ≡ b → a.1 ≡ b.1
    ap_snd a b e = λ i. (e i).1

contains-added_ids_self :
    (gid : ℤ) (uid : ℕ) (phone : Text) (rows : Dict (ℤ × ℕ) Text)
    → contains uid (added_ids (put (gid, uid) phone rows)) ≡ true
contains-added_ids_self gid uid phone [] = ground (arith, nat_beq_iff uid uid)
contains-added_ids_self gid uid phone ((k, p) ∷ rows) =
    ground (arith, nat_beq_iff uid uid, contains-added_ids_self gid uid phone rows)

-- No write of the add engine takes a user off the list, whether it works or not.
pub add_do_not_add-Blocked :
    (ok : Bool) (uid other : ℕ) (reason : Text) (db : Db)
    → Blocked uid db
    → Blocked uid (add_do_not_add ok other reason db).0
unfolding add_do_not_add is_do_not_add is_added_anywhere
add_do_not_add-Blocked ok uid other reason db h = ground (
  arith,
  contains-get_blocked_user_ids uid db,
  contains-get_blocked_user_ids uid (add_do_not_add ok other reason db).0,
  get-put other uid reason db.do_not_add,
)

pub add_do_not_add-Blocked_self :
    (uid : ℕ) (reason : Text) (db : Db) → Blocked uid (add_do_not_add true uid reason db).0
unfolding add_do_not_add is_do_not_add
add_do_not_add-Blocked_self uid reason db = ground (
  arith,
  contains-get_blocked_user_ids uid (add_do_not_add true uid reason db).0,
  get-put_self uid reason db.do_not_add,
)

pub delete_user-Blocked :
    (ok : Bool) (uid other : ℕ) (db : Db) → Blocked uid db → Blocked uid (delete_user ok other db).0
unfolding delete_user get_blocked_user_ids
delete_user-Blocked true uid other db h = h
delete_user-Blocked false uid other db h = h

purge_added_users-Blocked :
    (works : Bool) (uid : ℕ) (db : Db) → Blocked uid db → Blocked uid (purge_added_users works db)
unfolding purge_added_users get_blocked_user_ids
purge_added_users-Blocked true uid db h = h
purge_added_users-Blocked false uid db h = h

with_added-Blocked :
    (uid : ℕ) (gid : ℤ) (other : ℕ) (phone : Text) (db : Db)
    → Blocked uid db
    → Blocked uid (with_added gid other phone db)
unfolding is_added_anywhere is_do_not_add
with_added-Blocked uid gid other phone db h = ground (
  arith,
  contains-get_blocked_user_ids uid db,
  contains-get_blocked_user_ids uid (with_added gid other phone db),
  contains-added_ids-put uid (gid, other) phone db.added_history,
)

pub mark_added-Blocked :
    (ok purges : Bool) (uid : ℕ) (gid : ℤ) (other : ℕ) (phone : Text) (db : Db)
    → Blocked uid db
    → Blocked uid (mark_added ok purges gid other phone db)
unfolding mark_added
mark_added-Blocked false purges uid gid other phone db h = h
mark_added-Blocked true purges uid gid other phone db h =
    purge_added_users-Blocked purges uid (with_added gid other phone db)
      (with_added-Blocked uid gid other phone db h)
