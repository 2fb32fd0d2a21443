-- ===== src/Watcher/Feeder.antt =====
-- services/watcher/internal/feeder: the watched set follows the leaderboard, by a snapshot and a stream
-- of changes, again and again. What a snapshot answers and what a stream brings until it ends are
-- arguments of each round.
pub mod Resync
mod Tests
use lobster_roll.Prelude.{ℕ, suc, Bool, true, false, List, [], ◌∷◌, Option, none, some, GoString}
use lobster_roll.Watcher.Address.{apply}
use lobster_roll.Watcher.Backoff.{delay}

-- Run's variables and the set; times are in nanoseconds. `waited` is the last wait.
pub record Feeder : Type 0 where
  pub set : List (List ℕ)
  pub ready_closed : Bool
  pub attempt : ℕ
  pub waited : ℕ

abbrev pub base : ℕ
base = 1_000_000_000

abbrev pub max_wait : ℕ
max_wait = 30_000_000_000

pub record Update : Type 0 where
  pub added : List GoString
  pub removed : List GoString

module _ (hex_to_address : GoString → List ℕ) where
  -- `Stream`, until it ends.
  unfoldable pub stream : List (List ℕ) → List Update → List (List ℕ)
  stream set [] = set
  stream set (u ∷ us) = stream (apply hex_to_address set u.added u.removed) us

  -- `Snapshot` and `Stream`: none if the snapshot fails.
  unfoldable pub session : Feeder → Option (List GoString) → List Update → Feeder
  unfolding stream
  session f none updates = f
  session f (some wallets) updates = record f {
    set = stream (apply hex_to_address f.set wallets []) updates;
    ready_closed = true;
    attempt = 0;
  }

  unfoldable pub wait : Feeder → Feeder
  wait f = record f { waited = delay f.attempt base max_wait; attempt = suc f.attempt }

  -- One round of `Run`, while its context lives.
  unfoldable pub round : Feeder → Option (List GoString) → List Update → Feeder
  unfolding session wait
  round f reply updates = wait (session f reply updates)
