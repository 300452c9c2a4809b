-- ===== src/Base/Clock.antt =====
-- Clock readings. `time.time()` is a float of seconds with microsecond resolution: a reading is
-- a natural number of microseconds.
use Prim.Native.Nat.{ℕ, ◌*◌}

abbrev pub seconds : ℕ → ℕ
seconds n = n * 1000000
