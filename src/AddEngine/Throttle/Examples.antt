-- ===== src/AddEngine/Throttle/Examples.antt =====
-- Tests and instances of the theorems.
use add_members.Base.{◌+◌, ◌*◌, ◌≡◌, ◌≤◌, refl, true, false, some, List, [], ◌∷◌, codes, arith}
use add_members.AddEngine.Throttle.{Invite, interval_bounds, global_throttle}
use add_members.AddEngine.Throttle.Spacing

-- Three accounts that invite at once, one of them without the lock.
abbrev at_once : List Invite
at_once =
    record {
      add_mode = codes "ultra";
      draw = some 1500000;
      lock_works = true;
      now = 9000000;
      after = 9000010;
    }
    ∷ record {
      add_mode = codes "ultra";
      draw = some 1500000;
      lock_works = false;
      now = 9000012;
      after = 9000013;
    }
    ∷ record {
      add_mode = codes "ultra";
      draw = some 2000000;
      lock_works = true;
      now = 9000020;
      after = 11000100;
    }
    ∷ []

switched_off :
    global_throttle false 5
      (record { add_mode = codes "max"; draw = some 1; lock_works = true; now = 7; after = 8 })
    ≡ (0, 5)
unfolding global_throttle
switched_off = refl

run-elapsed_example : 7000000 + Spacing.locked at_once * 1400000 ≤ Spacing.run 7000000 at_once
unfolding interval_bounds global_throttle
run-elapsed_example =
    Spacing.run-elapsed 1400000 7000000 at_once
      (
        (omega arith, omega arith),
        (λ h. omega arith),
        (
          (omega arith, omega arith),
          (λ h. cc),
          ((omega arith, omega arith), (λ h. omega arith), tt),
        ),
      )
      (omega arith, (omega arith, (omega arith, tt)))
