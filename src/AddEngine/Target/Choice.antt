-- ===== src/AddEngine/Target/Choice.antt =====
-- add_engine.py, `persist_target_setting` and `resolve_add_target`: the choice of the target.
use add_members.Base.{
  ◌≡◌, ◌⊎◌, true, false, Option, some, [], ◌∷◌, Text, ℤ, int_eq, strip, inl, inr, arith,
}
use add_members.Db.Config.{Config, Queries, is_zero}
use add_members.AddEngine.Target.{
  Library, ChatRef, id, name, is_username, looks_like_chat_ref, resolve_add_target,
}

-- Both queries work.
abbrev pub works : Queries
works = record { row = true; kv = true }

-- A number that is not 0, or a public name after @.
abbrev pub IsTarget : ChatRef → Type 0
IsTarget (id z) = is_zero z ≡ false
IsTarget (name []) = ⊥
IsTarget (name (c ∷ u)) = (c ≡ 64) × (is_username u ≡ true)

-- The default target is the last resort. If the configuration has a group id, or a name that reads
-- as a reference, or if the history of additions names a group, the default plays no part.
pub resolve_add_target-fallback :
    (lib : Library) (cfg : Config) (dest : Option ℤ) (fallback other : Text)
    → ((z : ℤ) × (cfg.group_id ≡ some z) × (is_zero z ≡ false))
      ⊎ (looks_like_chat_ref lib (strip cfg.group_name) ≡ true)
      ⊎ ((z : ℤ) × (dest ≡ some z) × (is_zero z ≡ false))
    → resolve_add_target lib cfg dest fallback ≡ resolve_add_target lib cfg dest other
unfolding resolve_add_target
resolve_add_target-fallback lib cfg dest fallback other (inl (z, e, h)) = ground (arith, e, h)
resolve_add_target-fallback lib cfg dest fallback other (inr (inl h)) = ground (arith, h)
resolve_add_target-fallback lib cfg dest fallback other (inr (inr (z, e, h))) = ground (arith, e, h)
