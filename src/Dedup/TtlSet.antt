-- ===== src/Dedup/TtlSet.antt =====
-- pkg/dedup/ttlset.go: a set of keys that expire. Times and the time to live are in nanoseconds; the
-- clock's reading is an argument of each call.
pub mod Expiry
mod Tests
use lobster_roll.Prelude.{
  ℕ, ◌+◌, Bool, true, false, List, [], Option, none, some, Eq, lookup, insert, delete, keep, ltb,
  not, length, if◌then◌else◌,
}

pub record TtlSet {ℓ} (K : Type ℓ) : Type ℓ where
  pub ttl : ℕ
  pub exp : List (K × ℕ)
  pub ops : ℕ

abbrev pub sweep_every : ℕ
sweep_every = 512

module _ {ℓ} {K : Type ℓ} where
  unfoldable pub new_ttl : ℕ → TtlSet K
  new_ttl ttl = record { ttl = ttl; exp = []; ops = 0 }

  unfoldable pub sweep : TtlSet K → ℕ → TtlSet K
  sweep s now =
      if ltb (s.ops + 1) sweep_every
      then record s { ops = s.ops + 1 }
      else record s { ops = 0; exp = keep (λ r. ltb now r.1) s.exp }

  pub ttl_len : TtlSet K → ℕ
  ttl_len s = length s.exp

-- Whether an entry is present and not yet expired.
unfoldable pub is_live : Option ℕ → ℕ → Bool
is_live none now = false
is_live (some e) now = ltb now e

module _ {ℓ} {K : Type ℓ} ⦃e : Eq K⦄ where
  unfoldable pub add : TtlSet K → ℕ → K → TtlSet K × Bool
  unfolding is_live sweep
  add s now key =
      if is_live (lookup key s.exp) now
      then (s, false)
      else (sweep (record s { exp = insert key (now + s.ttl) s.exp }) now, true)

  unfoldable pub remove : TtlSet K → K → TtlSet K
  remove s key = record s { exp = delete key s.exp }
