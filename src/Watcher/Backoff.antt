-- ===== src/Watcher/Backoff.antt =====
-- services/watcher/internal/backoff/backoff.go. A time.Duration is an int64, kept here as its bit
-- pattern below 2^64, and `attempt` counts from 0: a negative attempt behaves as 0.
pub mod Capped
mod Tests
use lobster_roll.Prelude.{
  ℕ, zero, suc, ◌*◌, ◌%◌, ◌^◌, Bool, true, false, ◌==◌, ◌||◌, leb, ltb, if◌then◌else◌, not,
}

-- The sign bit, and the signed order on bit patterns.
pub negative : ℕ → Bool
negative x = leb (2 ^ 63) x

unfoldable pub signed_le : ℕ → ℕ → Bool
unfolding negative
signed_le x y =
    if negative x
    then (if negative y then leb x y else true)
    else if negative y
    then false
    else leb x y

pub double : ℕ → ℕ
double d = (d * 2) % 2 ^ 64

-- The loop, on the rounds left.
unfoldable pub delay_loop : ℕ → ℕ → ℕ → ℕ
unfolding double negative signed_le
delay_loop zero d max = if signed_le d max then d else max
delay_loop (suc n) d max =
    let d' = double d in
    let rest = delay_loop n d' max in if signed_le max d' || signed_le d' 0 then max else rest

unfoldable pub delay : ℕ → ℕ → ℕ → ℕ
unfolding delay_loop
delay zero base max = base
delay (suc n) base max = delay_loop (suc n) base max
