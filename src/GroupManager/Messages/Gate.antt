-- ===== src/GroupManager/Messages/Gate.antt =====
-- Who is moderated, and what may happen to them.
use add_members.Base.{
  ℕ, ◌≡◌, ◌⊎◌, refl, Bool, true, false, ◌&&◌, [], ◌∷◌, ◌++◌, leb, Bool-cases, ℤ, int_eq, nat_eq,
  pair_eq, any, if◌then◌else◌, arith, Option-cases, inl, inr,
}
use add_members.GroupManager.Warnings
use add_members.GroupManager.Messages.{
  Library, Settings, Message, Found, clean, violation, raised, Kind, flood, blacklist, channel,
  links, fwd, caps, emoji, media, Action, delete, mute, warn, ban, kick, Call, deleted, muted,
  banned, State, violations, action_for, is_blacklist, punish, moderate, on_msg, follow, MessageLog,
  warned,
}

-- Bans of any length, also the ban of a minute that a kick makes.
abbrev pub bans_of_warning : Warnings.Call → Bool
bans_of_warning (Warnings.banned _ _) = true
bans_of_warning _ = false

abbrev pub mutes_of_warning : Warnings.Call → Bool
mutes_of_warning (Warnings.restricted _ _) = true
mutes_of_warning _ = false

abbrev pub is_ban : Call → Bool
is_ban (banned _) = true
is_ban (warned calls) = any bans_of_warning calls
is_ban _ = false

abbrev pub is_mute : Call → Bool
is_mute (muted _ _) = true
is_mute (warned calls) = any mutes_of_warning calls
is_mute _ = false

-- The action is a ban, or a warning whose last one bans or kicks.
abbrev pub MayBan : Settings → Action → Type 0
MayBan s act =
    (act ≡ ban)
    ⊎ ((act ≡ warn)
        × ((s.warnings.warn_action ≡ Warnings.ban) ⊎ (s.warnings.warn_action ≡ Warnings.kick)))

-- The action is a mute, or a warning whose last one mutes.
abbrev pub MayMute : Settings → Action → Type 0
MayMute s act = (act ≡ mute) ⊎ ((act ≡ warn) × (s.warnings.warn_action ≡ Warnings.mute))

warn_calls_harsh :
    (s : Warnings.Settings) (a : Warnings.WarnAction) (uid limit : ℕ)
    → (any bans_of_warning (Warnings.warn_calls s a uid ++ (Warnings.told_limit uid limit ∷ []))
          ≡ true
        → (a ≡ Warnings.ban) ⊎ (a ≡ Warnings.kick))
      × (any mutes_of_warning (Warnings.warn_calls s a uid ++ (Warnings.told_limit uid limit ∷ []))
            ≡ true
          → a ≡ Warnings.mute)
warn_calls_harsh s Warnings.mute uid limit = (λ h. cc, λ h. refl)
warn_calls_harsh s Warnings.kick uid limit = (λ h. inr refl, λ h. cc)
warn_calls_harsh s Warnings.ban uid limit = (λ h. inl refl, λ h. cc)
warn_calls_harsh s Warnings.other uid limit = (λ h. cc, λ h. cc)

add_warn_harsh :
    (works : Bool) (s : Warnings.Settings) (chat_id : ℤ) (uid : ℕ) (table : Warnings.Table)
    → (any bans_of_warning (Warnings.add_warn works s chat_id uid table).1 ≡ true
        → (s.warn_action ≡ Warnings.ban) ⊎ (s.warn_action ≡ Warnings.kick))
      × (any mutes_of_warning (Warnings.add_warn works s chat_id uid table).1 ≡ true
          → s.warn_action ≡ Warnings.mute)
unfolding Warnings.add_warn
add_warn_harsh works s chat_id uid table =
    elim (Bool-cases (leb s.warn_limit (Warnings.db_warn_add works chat_id uid 1 table).1)) [
      | inl e ↦ rw (e, Warnings.add_warn) (warn_calls_harsh s s.warn_action uid s.warn_limit)
      | inr e ↦ rw (e, Warnings.add_warn) (λ h. cc, λ h. cc)
    ]

punish_harsh :
    (works : Bool) (s : Settings) (chat_id : ℤ) (uid : ℕ) (act : Action) (dur : ℕ)
    (table : Warnings.Table)
    → (any is_ban (punish works s chat_id uid act dur table).1 ≡ true → MayBan s act)
      × (any is_mute (punish works s chat_id uid act dur table).1 ≡ true → MayMute s act)
unfolding punish
punish_harsh works s chat_id uid delete dur table = (λ h. cc, λ h. cc)
punish_harsh works s chat_id uid mute dur table = (λ h. cc, λ h. inl refl)
punish_harsh works s chat_id uid warn dur table =
    let (bans, mutes) = add_warn_harsh works s.warnings chat_id uid table in
    (λ h. inr (refl, bans (ground (arith, h))), λ h. inr (refl, mutes (ground (arith, h))))
punish_harsh works s chat_id uid ban dur table = (λ h. inl refl, λ h. cc)
punish_harsh works s chat_id uid kick dur table = (λ h. cc, λ h. cc)

-- The settings choose the action of two kinds of violation.
action_for_parts :
    (s : Settings) (k : Kind) (P : Action → Type 0)
    → P (action_for s k).0
    → P delete ⊎ (P s.flood_action ⊎ P s.profanity_action)
unfolding action_for
action_for_parts s flood P h = inr (inl h)
action_for_parts s blacklist P h = inr (inr h)
action_for_parts s channel P h = inl h
action_for_parts s links P h = inl h
action_for_parts s fwd P h = inl h
action_for_parts s caps P h = inl h
action_for_parts s emoji P h = inl h
action_for_parts s (media k) P h = inl h

pub action_of :
    (s : Settings) (k : Kind)
    → (if s.lock_profanity && is_blacklist k then action_for s k else action_for s k)
      ≡ action_for s k
action_of s k = ground arith

-- `is_harsh` calls come from `punish` with the action of some violation.
follow_harsh :
    (works : Bool) (s : Settings) (uid : ℕ) (chat_id : ℤ) (st : State) (log : MessageLog)
    (found : Found) (P : Action → Type 0) (is_harsh : Call → Bool)
    → ((act : Action) (dur : ℕ)
        → any is_harsh (punish works s chat_id uid act dur st.warns).1 ≡ true
        → P act)
    → any is_harsh (follow works s uid chat_id st log found).1 ≡ true
    → (k : Kind) × P (action_for s k).0
unfolding follow
follow_harsh works s uid chat_id st log clean P is_harsh f h = absurd (cc)
follow_harsh works s uid chat_id st log raised P is_harsh f h = absurd (cc)
follow_harsh works s uid chat_id st log (violation k) P is_harsh f h =
    (k, f (action_for s k).0 (action_for s k).1 (rw (action_of s k) at h))

moderate_harsh :
    (lib : Library) (works : Bool) (s : Settings) (now uid : ℕ) (m : Message) (st : State)
    (P : Action → Type 0) (is_harsh : Call → Bool)
    → is_harsh deleted ≡ false
    → ((act : Action) (dur : ℕ)
        → any is_harsh (punish works s m.chat_id uid act dur st.warns).1 ≡ true
        → P act)
    → any is_harsh (moderate lib works s now uid m st).1 ≡ true
    → (k : Kind) × P (action_for s k).0
unfolding moderate
moderate_harsh lib works s now uid m st P is_harsh e f h =
    follow_harsh works s uid m.chat_id st (violations lib s now uid m st.log).0
      (violations lib s now uid m st.log).1 P is_harsh f (ground (arith, e, h))

-- Nobody is punished more than the settings say, also by way of the warnings. If a message leads to a
-- ban (for ever, or for the minute of a kick), its author is no admin, moderation is on, and one of
-- the two action settings is `ban`, or is `warn` while the last warning bans or kicks. If it leads to
-- a mute, then likewise one of the two is `mute`, or is `warn` while the last warning mutes.
pub on_msg-harsh :
    (lib : Library) (works : Bool) (s : Settings) (admin : Bool) (now : ℕ) (m : Message)
    (st : State)
    → (any is_ban (on_msg lib works s admin now m st).1 ≡ true
        → (admin ≡ false)
          × (s.enabled ≡ true)
          × (MayBan s s.flood_action ⊎ MayBan s s.profanity_action))
      × (any is_mute (on_msg lib works s admin now m st).1 ≡ true
          → (admin ≡ false)
            × (s.enabled ≡ true)
            × (MayMute s s.flood_action ⊎ MayMute s s.profanity_action))
unfolding on_msg
on_msg-harsh lib works s admin now m st = (
  harsh (MayBan s) is_ban refl (λ h. elim h [ inl e ↦ cc | inr (e, _) ↦ cc ])
      (λ act dur uid. (punish_harsh works s m.chat_id uid act dur st.warns).0),
  harsh (MayMute s) is_mute refl (λ h. elim h [ inl e ↦ cc | inr (e, _) ↦ cc ])
      (λ act dur uid. (punish_harsh works s m.chat_id uid act dur st.warns).1),
)
  where
    of_kind :
        (P : Action → Type 0)
        → ¬ P delete
        → (k : Kind) × P (action_for s k).0
        → P s.flood_action ⊎ P s.profanity_action
    of_kind P ne (k, e) = elim (action_for_parts s k P e) [ inl f ↦ absurd (ne f) | inr f ↦ f ]

    harsh :
        (P : Action → Type 0) (is_harsh : Call → Bool)
        → is_harsh deleted ≡ false
        → ¬ P delete
        → ((act : Action) (dur uid : ℕ)
            → any is_harsh (punish works s m.chat_id uid act dur st.warns).1 ≡ true
            → P act)
        → any is_harsh (on_msg lib works s admin now m st).1 ≡ true
        → (admin ≡ false) × (s.enabled ≡ true) × (P s.flood_action ⊎ P s.profanity_action)
    harsh P is_harsh e ne f h = elim (Option-cases m.from_user) [
      | inl g ↦ absurd (ground (arith, g, h))
      | inr (uid, g) ↦ (
        ground (arith, g, h),
        ground (arith, g, h),
        of_kind P ne (
            moderate_harsh lib works s now uid m st P is_harsh e (λ act dur. f act dur uid)
              (ground (arith, g, h))),
      )
    ]
