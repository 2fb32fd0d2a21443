-- ===== src/Watcher/Backoff/Capped.antt =====
-- The delay is the exponential one, cut off at the maximum, and no doubling overflows unnoticed.
use Prim.Native.Nat.{min}
use native.Mathlib.Nat.{pow-succ', mul_assoc}
use lobster_roll.Prelude.{ℕ, zero, suc, ◌*◌, ◌^◌, ◌≤◌, ◌<◌, ◌≡◌, ◌∙◌, ap, arith}
use lobster_roll.Watcher.Backoff.{delay_loop, delay}

-- The same loop without a machine word: double, and stop at the maximum.
pub exponential : ℕ → ℕ → ℕ → ℕ
exponential zero base max = min base max
exponential (suc n) base max = exponential n (base * 2) max

exponential-top : (n base max : ℕ) → max ≤ base → exponential n base max ≡ max
unfolding exponential
exponential-top zero base max h = omega arith
exponential-top (suc n) base max h = exponential-top n (base * 2) max (omega arith)

exponential-pow : (n base max : ℕ) → exponential n base max ≡ min (base * 2 ^ n) max
unfolding exponential
exponential-pow zero base max = omega arith
exponential-pow (suc n) base max =
    exponential-pow n (base * 2) max
    ∙ ap (λ x. min x max) (rw (pow-succ' 2 n) (mul_assoc base 2 (2 ^ n)))

delay_loop-exponential :
    (n d max : ℕ) → 0 < d → d ≤ max → max < 2 ^ 63 → delay_loop n d max ≡ exponential n d max
unfolding delay_loop exponential
delay_loop-exponential zero d max p h m = ground arith
delay_loop-exponential (suc n) d max p h m =
    ground (arith, exponential-top n (d * 2) max, delay_loop-exponential n (d * 2) max)

-- For a positive base that is at most the maximum, both in the range of int64, the delay of every
-- attempt is base * 2^attempt or the maximum, whichever is smaller, also where the doubling
-- overflows 64 bits.
pub delay-min :
    (attempt base max : ℕ)
    → 0 < base
    → base ≤ max
    → max < 2 ^ 63
    → delay attempt base max ≡ min (base * 2 ^ attempt) max
unfolding delay
delay-min zero base max p h m = omega arith
delay-min (suc n) base max p h m =
    delay_loop-exponential (suc n) base max p h m ∙ exponential-pow (suc n) base max
