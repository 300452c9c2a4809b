-- ===== src/GroupManager/Commands/Targets.antt =====
-- group_manager.py: on whom the commands of moderation act.
use add_members.Base.{
  ℕ, ◌≡◌, ◌≢◌, refl, Bool, true, false, none, some, List, [], ◌∷◌, All, get, ℤ, int_eq, nat_eq,
  pair_eq, nat_beq, ◌+◌, ◌-◌, take, if◌then◌else◌, All-map, sym, ap, ◌∙◌, Bool-cases, Option-cases,
  inl, inr,
}
use add_members.GroupManager.Warnings
use add_members.GroupManager.Warnings.Users.{
  user_of, add_warn_users, get-db_warn_reset, get-add_warn,
}
use add_members.GroupManager.Commands.{
  Message, Outside, Call, banned, muted, unbanned, unmuted, promoted, demoted, deleted, warned,
  target, on_target, by_owner, if_works, ban, unban, kick, mute, unmute, warn, resetwarn, range,
  purge, del, promote, demote,
}
use add_members.GroupManager.Commands.Allowed.{
  Command, ban_command, unban_command, kick_command, mute_command, unmute_command, warn_command,
  resetwarn_command, purge_command, del_command, promote_command, demote_command, run, may, refused,
  IsMild, ban-IsMild, purge-IsMild,
}

if_All :
    {A : Type 0} (P : A → Type 0) (b : Bool) (xs : List A) → All P xs → All P (if b then xs else [])
if_All P true xs h = h
if_All P false xs h = tt

module _ (out : Outside) (owner : ℕ) (s : Warnings.Settings) (m : Message) where
  -- The call is about the target of the command; deletions are about messages.
  abbrev pub Aims : Call → Type 0
  Aims (banned uid _) = target out m ≡ some uid
  Aims (muted uid _) = target out m ≡ some uid
  Aims (unbanned uid) = target out m ≡ some uid
  Aims (unmuted uid) = target out m ≡ some uid
  Aims (promoted uid) = target out m ≡ some uid
  Aims (demoted uid) = target out m ≡ some uid
  Aims (warned calls) = All (λ c. target out m ≡ some (user_of c)) calls
  Aims (deleted ids) = Unit {0}

  if_works-Aims : (calls : List Call) → All Aims calls → All Aims (if_works out calls)
  if_works-Aims calls h = if_All Aims out.works calls h

  on_target-Aims :
      (calls : ℕ → List Call)
      → ((uid : ℕ) → target out m ≡ some uid → All Aims (calls uid))
      → All Aims (on_target out m calls)
  on_target-Aims calls h = elim (Bool-cases (out.is_admin m.from_user)) [
    | inr e ↦ rw e tt
    | inl e ↦ elim (Option-cases (target out m)) [
      | inl f ↦ rw (e, f) tt
      | inr (uid, f) ↦ rw (e, f) (h uid f)
    ]
  ]

  by_owner-Aims :
      (call : ℕ → Call)
      → ((uid : ℕ) → target out m ≡ some uid → Aims (call uid))
      → All Aims (by_owner out owner m call)
  by_owner-Aims call h = elim (Bool-cases (nat_beq m.from_user owner)) [
    | inr e ↦ rw e tt
    | inl e ↦ elim (Option-cases (target out m)) [
      | inl f ↦ rw (e, f) tt
      | inr (uid, f) ↦ rw (e, f) (if_works-Aims (call uid ∷ []) (h uid f, tt))
    ]
  ]

  ban-Aims : All Aims (ban out m)
  unfolding ban
  ban-Aims = on_target-Aims _ (λ uid f. elim (Bool-cases (out.is_admin uid)) [
    | inl g ↦ rw g tt
    | inr g ↦ rw g (if_works-Aims _ (f, tt))
  ])

  warn-Aims : (table : Warnings.Table) → All Aims (warn out s m table).1
  unfolding warn
  warn-Aims table = elim (Bool-cases (out.is_admin m.from_user)) [
    | inr e ↦ rw (warn, e) tt
    | inl e ↦ elim (Option-cases (target out m)) [
      | inl f ↦ rw (warn, e, f) tt
      | inr (uid, f) ↦
          rw (warn, e, f)
            (
              All-map (Warnings.add_warn out.saves s m.chat_id uid table).1
                  (λ c same. f ∙ ap some (sym same))
                  (add_warn_users out.saves s m.chat_id uid table),
              (tt, tt),
            )
    ]
  ]

  purge-Aims : All Aims (purge out m)
  unfolding purge
  purge-Aims = elim (Bool-cases (out.is_admin m.from_user)) [
    | inr e ↦ rw (purge, e) tt
    | inl e ↦
        rw (purge, e)
          (elim m.reply
            as (λ r. All Aims (elim r as (λ _. List Call) [
              | none ↦ []
              | some (start, author) ↦
                  if_works out (deleted (take 200 (range start (m.message_id + 1 - start))) ∷ [])
            ])) [ none ↦ tt | some (start, author) ↦ if_works-Aims _ (tt, tt) ])
  ]

  del-Aims : All Aims (del out m)
  unfolding del
  del-Aims = elim (Bool-cases (out.is_admin m.from_user)) [
    | inr e ↦ rw (del, e) tt
    | inl e ↦ elim (Option-cases m.reply) [
      | inl f ↦ rw (del, e, f) tt
      | inr ((start, author), f) ↦ rw (del, e, f) (tt, (tt, tt))
    ]
  ]

  run-Aims :
      (command : Command) (table : Warnings.Table) → All Aims (run out owner s m command table).1
  unfolding unban kick mute unmute resetwarn promote demote
  run-Aims ban_command table = ban-Aims
  run-Aims unban_command table = on_target-Aims _ (λ uid f. if_works-Aims _ (f, tt))
  run-Aims kick_command table = on_target-Aims _ (λ uid f. if_works-Aims _ (f, (f, tt)))
  run-Aims mute_command table = on_target-Aims _ (λ uid f. if_works-Aims _ (f, tt))
  run-Aims unmute_command table = on_target-Aims _ (λ uid f. if_works-Aims _ (f, tt))
  run-Aims warn_command table = warn-Aims table
  run-Aims resetwarn_command table = tt
  run-Aims purge_command table = purge-Aims
  run-Aims del_command table = del-Aims
  run-Aims promote_command table = by_owner-Aims promoted (λ uid f. f)
  run-Aims demote_command table = by_owner-Aims demoted (λ uid f. f)

  -- The key is that of no warning of the target in this chat.
  abbrev pub IsOther : ℤ × ℕ → Type 0
  IsOther key = (uid : ℕ) → target out m ≡ some uid → key ≢ (m.chat_id, uid)

  get-warn :
      (table : Warnings.Table) (key : ℤ × ℕ)
      → IsOther key
      → get key (warn out s m table).0 ≡ get key table
  unfolding warn
  get-warn table key h = elim (Bool-cases (out.is_admin m.from_user)) [
    | inr e ↦ rw (warn, e) refl
    | inl e ↦ elim (Option-cases (target out m)) [
      | inl f ↦ rw (warn, e, f) refl
      | inr (uid, f) ↦ rw (warn, e, f) (get-add_warn out.saves s m.chat_id uid table key (h uid f))
    ]
  ]

  get-resetwarn :
      (table : Warnings.Table) (key : ℤ × ℕ)
      → IsOther key
      → get key (resetwarn out m table) ≡ get key table
  unfolding resetwarn
  get-resetwarn table key h = elim (Bool-cases (out.is_admin m.from_user)) [
    | inr e ↦ rw (resetwarn, e) refl
    | inl e ↦ elim (Option-cases (target out m)) [
      | inl f ↦ rw (resetwarn, e, f) refl
      | inr (uid, f) ↦
          rw (resetwarn, e, f) (get-db_warn_reset out.saves m.chat_id uid table key (h uid f))
    ]
  ]

  get-run :
      (command : Command) (table : Warnings.Table) (key : ℤ × ℕ)
      → IsOther key
      → get key (run out owner s m command table).0 ≡ get key table
  get-run warn_command table key h = get-warn table key h
  get-run resetwarn_command table key h = get-resetwarn table key h
  get-run _ table key h = refl

  -- The eleven commands of moderation (ban, unban, kick, mute, unmute, warn, resetwarn, purge, del,
  -- promote, demote) act on their target alone: every call that bans, mutes, warns, frees, promotes or
  -- demotes, also the calls that the last warning makes, is about the user that `_target` found, and
  -- no entry of the table of warnings changes but that of this user in this chat. Somebody who may not
  -- give the command (no admin of the chat; for promote and demote not the owner of the bot) changes
  -- no warning and causes no call. `/ban` bans no admin, and `/purge` deletes at most 200 messages,
  -- none after the command.
  pub run-target :
      (command : Command) (table : Warnings.Table)
      → All Aims (run out owner s m command table).1
        × ((key : ℤ × ℕ)
            → IsOther key
            → get key (run out owner s m command table).0 ≡ get key table)
        × (may out owner s m command ≡ false → run out owner s m command table ≡ (table, []))
        × All (IsMild out owner s m) (run out owner s m ban_command table).1
        × All (IsMild out owner s m) (run out owner s m purge_command table).1
  run-target command table = (
    run-Aims command table,
    get-run command table,
    refused out owner s m command table,
    ban-IsMild out owner s m,
    purge-IsMild out owner s m,
  )
