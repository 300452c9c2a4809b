-- ===== src/AddEngine/Cooldown/Bounds.antt =====
-- Bounds of the rest times and of the caps.
use add_members.Base.{
  ℕ, zero, suc, ◌≤◌, ◌<◌, ◌≡◌, refl, Option, none, some, ℤ, pos, negsuc, leb, arith, if◌then◌else◌,
}
use add_members.AddEngine.Cooldown.{peer_flood_cooldown, peer_flood_max, Config, warmup_cap}

-- The rest time as a table.
abbrev cooldown_table : ℕ → ℕ
cooldown_table n =
    if leb n 1
    then 180
    else if leb n 2
    then 480
    else if leb n 3
    then 900
    else if leb n 4
    then 1800
    else 2700

cooldown-table : (n : ℕ) → peer_flood_cooldown (some (pos n)) ≡ cooldown_table n
unfolding peer_flood_cooldown
cooldown-table zero = refl
cooldown-table (suc zero) = refl
cooldown-table (suc (suc zero)) = refl
cooldown-table (suc (suc (suc zero))) = refl
cooldown-table (suc (suc (suc (suc zero)))) = refl
cooldown-table (suc (suc (suc (suc (suc n))))) = ground arith

-- More strikes never shorten the rest, and a new strike from the second to the fifth lengthens it.
pub peer_flood_cooldown_mono :
    (m n : ℕ)
    → m ≤ n
    → (peer_flood_cooldown (some (pos m)) ≤ peer_flood_cooldown (some (pos n)))
      × (1 ≤ m
          → m ≤ 4
          → m < n
          → peer_flood_cooldown (some (pos m)) < peer_flood_cooldown (some (pos n)))
peer_flood_cooldown_mono m n h = (
  ground (arith, cooldown-table m, cooldown-table n),
  λ a b c. ground (arith, cooldown-table m, cooldown-table n),
)

-- The rest is at least 3 and at most 45 minutes, also for a count that is negative or no number.
pub peer_flood_cooldown_bounds :
    (strike_count : Option ℤ)
    → (180 ≤ peer_flood_cooldown strike_count) × (peer_flood_cooldown strike_count ≤ peer_flood_max)
unfolding peer_flood_cooldown
peer_flood_cooldown_bounds none = omega arith
peer_flood_cooldown_bounds (some (negsuc n)) = omega arith
peer_flood_cooldown_bounds (some (pos n)) = ground (arith, cooldown-table n)

-- A cap given for the mode, other than 0, is never exceeded, whatever the account has added before
-- and however the warm-up is configured.
pub warmup_cap-le :
    (config : Config) (historical_added : Option ℤ) (cap : ℕ)
    → 0 < cap
    → warmup_cap config historical_added (some cap) ≤ cap
unfolding warmup_cap
warmup_cap-le config historical_added cap h = ground arith
