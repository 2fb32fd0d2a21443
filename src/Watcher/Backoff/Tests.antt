-- ===== src/Watcher/Backoff/Tests.antt =====
-- Runs of the backoff in nanoseconds, and its theorem at an attempt whose doubling overflows.
use Prim.Native.Nat.{min}
use lobster_roll.Prelude.{◌*◌, ◌-◌, ◌^◌, ◌≡◌, refl, arith}
use lobster_roll.Watcher.Backoff.{delay}
use lobster_roll.Watcher.Backoff.Capped.{delay-min}

third_attempt : delay 3 1_000_000_000 30_000_000_000 ≡ 8_000_000_000
unfolding delay
third_attempt = refl

-- The base alone is not held to the maximum.
base_above_max : delay 0 5 3 ≡ 5
unfolding delay
base_above_max = refl

delay-min_run : delay 70 (2 ^ 61) (2 ^ 63 - 1) ≡ min (2 ^ 61 * 2 ^ 70) (2 ^ 63 - 1)
delay-min_run = delay-min 70 (2 ^ 61) (2 ^ 63 - 1) (omega arith) (omega arith) (omega arith)
