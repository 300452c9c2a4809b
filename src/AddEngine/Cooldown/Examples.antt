-- ===== src/AddEngine/Cooldown/Examples.antt =====
-- Tests and instances of the theorems.
use add_members.Base.{◌≡◌, refl, true, false, none, some, [], ◌∷◌, pos}
use add_members.AddEngine.Cooldown.{Config, peer_flood_cooldown, warmup_cap, should_wait_inline}

third_strike : peer_flood_cooldown (some (pos 3)) ≡ 900
unfolding peer_flood_cooldown
third_strike = refl

long_wait : should_wait_inline (some (pos 82213)) ≡ false
unfolding should_wait_inline
long_wait = refl

abbrev warm : Config
warm = record {
  warmup_enabled = true;
  warmup_stages = some ((0, 12) ∷ (50, 40) ∷ []);
  max_add_per_account = 1000;
}

warmup_second_stage : warmup_cap warm (some (pos 60)) none ≡ 40
unfolding warmup_cap
warmup_second_stage = refl
