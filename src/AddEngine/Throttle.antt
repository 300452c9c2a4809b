-- ===== src/AddEngine/Throttle.antt =====
-- add_engine.py, `global_throttle`, and its table in config.py: the least time between two
-- invitations to the target group, whichever account sends them. Times are in microseconds.
pub mod Spacing
mod Examples
use add_members.Base.{
  ℕ, ◌+◌, ◌-◌, ◌*◌, ◌≤◌, Bool, true, false, not, Option, none, some, List, [], ◌∷◌, Text, Dict,
  codes, get, text_eq, seconds, ltb, if◌then◌else◌,
}

-- `config.GLOBAL_THROTTLE_INTERVAL`
abbrev pub global_throttle_interval : Dict Text (ℕ × ℕ)
global_throttle_interval =
    (codes "max", (600000, 1000000))
    ∷ (codes "ultra", (1400000, 2200000))
    ∷ (codes "fast", (2500000, 3800000))
    ∷ (codes "safe", (4000000, 6000000))
    ∷ []

-- `.get(add_mode, (1.0, 1.0))`
unfoldable pub interval_bounds : Text → ℕ × ℕ
interval_bounds add_mode = elim (get add_mode global_throttle_interval) [
  | some b ↦ b
  | none ↦ (1000000, 1000000)
]

-- One call: `draw` is what `random.uniform` returned, and none if it raised, `lock_works` is false if
-- the lock or the sleep raises a RuntimeError, `now` is the clock before the sleep and `after` the
-- clock behind it. The lock is held from `now` to `after`.
pub record Invite : Type 0 where
  pub add_mode : Text
  pub draw : Option ℕ
  pub lock_works : Bool
  pub now : ℕ
  pub after : ℕ

-- `interval`
abbrev pub interval : Invite → ℕ
interval invite = elim invite.draw [ some drawn ↦ drawn | none ↦ 1000000 ]

-- From `_global_last_invite_ts`: what the call asks of `asyncio.sleep` (0 is no sleep, and `-`
-- stops at 0 as the test `wait > 0` does), and the new `_global_last_invite_ts`.
unfoldable pub global_throttle : Bool → ℕ → Invite → ℕ × ℕ
global_throttle enabled last invite =
    if not enabled
    then (0, last)
    else if not invite.lock_works
    then (0, last)
    else (last + interval invite - invite.now, invite.after)
