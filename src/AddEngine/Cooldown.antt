-- ===== src/AddEngine/Cooldown.antt =====
-- add_engine.py: how long an account rests after PEER_FLOOD, how many it may add, and which waits
-- are made on the spot. `none` is an argument that `int()` refuses.
pub mod Bounds
mod Examples
use add_members.Base.{
  ℕ, zero, suc, ◌+◌, ◌-◌, ◌*◌, max, min, Bool, true, false, Option, none, some, List, [], ◌∷◌, ℤ,
  pos, negsuc, pos_part, leb, ltb, nat_beq, length, if◌then◌else◌,
}

-- `_PEER_FLOOD_BACKOFF` and `_PEER_FLOOD_MAX`
abbrev pub peer_flood_backoff : List ℕ
peer_flood_backoff = 3 * 60 ∷ 8 * 60 ∷ 15 * 60 ∷ 30 * 60 ∷ []

abbrev pub peer_flood_max : ℕ
peer_flood_max = 45 * 60

abbrev nth_or : List ℕ → ℕ → ℕ → ℕ
nth_or [] i d = d
nth_or (x ∷ xs) zero d = x
nth_or (x ∷ xs) (suc i) d = nth_or xs i d

-- `max(1, int(strike_count))`, or 1
abbrev pub strikes : Option ℤ → ℕ
strikes none = 1
strikes (some n) = max 1 (pos_part n)

unfoldable pub peer_flood_cooldown : Option ℤ → ℕ
peer_flood_cooldown strike_count =
    let n = strikes strike_count in
    if leb n (length peer_flood_backoff)
    then nth_or peer_flood_backoff (n - 1) peer_flood_max
    else peer_flood_max

-- The part of config.py that `warmup_cap` reads.
pub record Config : Type 0 where
  pub warmup_enabled : Bool
  pub warmup_stages : Option (List (ℕ × ℕ))
  pub max_add_per_account : ℕ

-- The `for` loop over the stages.
unfoldable pub stage_cap : ℕ → ℕ → List (ℕ × ℕ) → ℕ
stage_cap n cap [] = cap
stage_cap n cap ((threshold, allowed) ∷ stages) =
    stage_cap n (if leb threshold n then allowed else cap) stages

-- `int(mode_cap) if mode_cap else config.MAX_ADD_PER_ACCOUNT`; a cap of 0 counts as none.
abbrev pub default_cap : Config → Option ℕ → ℕ
default_cap config none = config.max_add_per_account
default_cap config (some cap) = if nat_beq cap 0 then config.max_add_per_account else cap

abbrev pub capped : ℕ → Option ℕ → ℕ
capped cap none = cap
capped cap (some limit) = if nat_beq limit 0 then cap else min cap limit

-- `max(0, int(historical_added or 0))`, or 0
abbrev pub history : Option ℤ → ℕ
history none = 0
history (some n) = pos_part n

abbrev staged_cap : Config → Option ℤ → Option ℕ → Option (List (ℕ × ℕ)) → ℕ
staged_cap config historical_added mode_cap none = default_cap config mode_cap
staged_cap config historical_added mode_cap (some []) = default_cap config mode_cap
staged_cap config historical_added mode_cap (some ((threshold, allowed) ∷ stages)) =
    capped (stage_cap (history historical_added) allowed ((threshold, allowed) ∷ stages)) mode_cap

unfoldable pub warmup_cap : Config → Option ℤ → Option ℕ → ℕ
unfolding stage_cap
warmup_cap config historical_added mode_cap =
    if config.warmup_enabled
    then staged_cap config historical_added mode_cap config.warmup_stages
    else default_cap config mode_cap

-- `MAX_INLINE_FLOODWAIT`
abbrev pub max_inline_floodwait : ℕ
max_inline_floodwait = 300

unfoldable pub should_wait_inline : Option ℤ → Bool
should_wait_inline none = false
should_wait_inline (some n) = leb (pos_part n) max_inline_floodwait
