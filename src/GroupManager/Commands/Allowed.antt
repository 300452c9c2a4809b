-- ===== src/GroupManager/Commands/Allowed.antt =====
-- group_manager.py: whose commands do anything, and to whom.
use add_members.Base.{
  ℕ, zero, suc, ◌+◌, ◌-◌, ◌≡◌, ◌≤◌, ◌<◌, refl, Bool, false, List, [], ◌∷◌, nat_beq, leb, take,
  length, length-take, All, All-map, Bool-cases, Option-cases, inl, inr, arith,
}
use add_members.GroupManager.Warnings
use add_members.GroupManager.Commands.{
  Message, Outside, Call, banned, deleted, target, ban, unban, kick, mute, unmute, warn, resetwarn,
  range, purge, del, promote, demote,
}

pub data Command : Type 0 where
  ban_command unban_command kick_command mute_command unmute_command warn_command resetwarn_command
        purge_command del_command promote_command demote_command :
      Command

module _ (out : Outside) (owner : ℕ) (s : Warnings.Settings) (m : Message) where
  -- The table of warnings afterwards, and the calls.
  abbrev pub run : Command → Warnings.Table → Warnings.Table × List Call
  run ban_command table = (table, ban out m)
  run unban_command table = (table, unban out m)
  run kick_command table = (table, kick out m)
  run mute_command table = (table, mute out m)
  run unmute_command table = (table, unmute out m)
  run warn_command table = warn out s m table
  run resetwarn_command table = (resetwarn out m table, [])
  run purge_command table = (table, purge out m)
  run del_command table = (table, del out m)
  run promote_command table = (table, promote out owner m)
  run demote_command table = (table, demote out owner m)

  -- Admins are made and unmade by the owner of the bot, all else is done by the admins of the chat.
  abbrev pub may : Command → Bool
  may promote_command = nat_beq m.from_user owner
  may demote_command = nat_beq m.from_user owner
  may _ = out.is_admin m.from_user

  pub refused :
      (command : Command) (table : Warnings.Table)
      → may command ≡ false
      → run command table ≡ (table, [])
  unfolding ban unban kick mute unmute warn resetwarn purge del promote demote
  refused ban_command table h = rw (ban, h) refl
  refused unban_command table h = rw (unban, h) refl
  refused kick_command table h = rw (kick, h) refl
  refused mute_command table h = rw (mute, h) refl
  refused unmute_command table h = rw (unmute, h) refl
  refused warn_command table h = rw (warn, h) refl
  refused resetwarn_command table h = rw (resetwarn, h) refl
  refused purge_command table h = rw (purge, h) refl
  refused del_command table h = rw (del, h) refl
  refused promote_command table h = rw (promote, h) refl
  refused demote_command table h = rw (demote, h) refl

  -- The call bans no admin, and deletes at most 200 messages, none after the command.
  abbrev pub IsMild : Call → Type 0
  IsMild (banned uid seconds) = out.is_admin uid ≡ false
  IsMild (deleted ids) = (length ids ≤ 200) × All (λ id. id ≤ m.message_id) ids
  IsMild _ = Unit

  pub ban-IsMild : All IsMild (ban out m)
  unfolding ban
  ban-IsMild = elim (Bool-cases (out.is_admin m.from_user)) [
    | inr e ↦ rw (ban, e) tt
    | inl e ↦ elim (Option-cases (target out m)) [
      | inl f ↦ rw (ban, e, f) tt
      | inr (uid, f) ↦ elim (Bool-cases (out.is_admin uid)) [
        | inl g ↦ rw (ban, e, f, g) tt
        | inr g ↦ elim (Bool-cases out.works) [
          | inl w ↦ rw (ban, e, f, g, w) (g, tt)
          | inr w ↦ rw (ban, e, f, g, w) tt
        ]
      ]
    ]
  ]

  range-All : (start count : ℕ) → All (λ id. id < start + count) (range start count)
  unfolding range
  range-All start zero = tt
  range-All start (suc count) = (
    omega arith,
    All-map (range (start + 1) count) (λ id h. omega (arith, h)) (range-All (start + 1) count),
  )

  take-All : (P : ℕ → Type 0) (n : ℕ) (ids : List ℕ) → All P ids → All P (take n ids)
  take-All P zero ids h = tt
  take-All P (suc n) [] h = tt
  take-All P (suc n) (id ∷ ids) h = (h.0, take-All P n ids h.1)

  range_below : (start : ℕ) → All (λ id. id ≤ m.message_id) (range start (m.message_id + 1 - start))
  unfolding range
  range_below start = elim (Bool-cases (leb start (m.message_id + 1))) [
    | inl e ↦
        All-map (range start (m.message_id + 1 - start)) (λ id h. ground (arith, h, e))
          (range-All start (m.message_id + 1 - start))
    | inr e ↦ let none_left : m.message_id + 1 - start ≡ 0 = ground (arith, e) in rw none_left tt
  ]

  purged : (start : ℕ) → IsMild (deleted (take 200 (range start (m.message_id + 1 - start))))
  purged start =
      let ids = range start (m.message_id + 1 - start) in
      (
        omega (arith, length-take 200 ids),
        take-All (λ id. id ≤ m.message_id) 200 ids (range_below start),
      )

  pub purge-IsMild : All IsMild (purge out m)
  unfolding purge
  purge-IsMild = elim (Bool-cases (out.is_admin m.from_user)) [
    | inr e ↦ rw (purge, e) tt
    | inl e ↦ elim (Option-cases m.reply) [
      | inl f ↦ rw (purge, e, f) tt
      | inr ((start, author), f) ↦ elim (Bool-cases out.works) [
        | inl w ↦ rw (purge, e, f, w) (purged start, tt)
        | inr w ↦ rw (purge, e, f, w) tt
      ]
    ]
  ]
