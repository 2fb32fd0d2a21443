-- ===== src/Watcher/Chainwatch/Cycle.antt =====
-- One cycle of chainwatch.go: backfill to the head, subscribe, catch up with the blocks mined since,
-- and go live; and the wait before the next cycle.
pub mod Gapless
use lobster_roll.Prelude.{
  ℕ, suc, ◌+◌, Bool, true, false, List, [], Option, none, some, ltb, if◌then◌else◌,
}
use lobster_roll.Watcher.Backoff.{delay}
use lobster_roll.Watcher.Chainwatch.{World, Watcher, start_block, backfill}
use lobster_roll.Watcher.Chainwatch.Live.{Event, Next, running, stopped, run_live}

-- What the outside answers: the head, whether the cursor can be read, whether the subscription is
-- made, and the head after it. none: an error.
pub record Answers : Type 0 where
  pub head : Option ℕ
  pub cursor_read : Bool
  pub subscribed : Bool
  pub new_head : Option ℕ

-- Nanoseconds.
abbrev pub backoff_base : ℕ
backoff_base = 1_000_000_000

abbrev pub backoff_max : ℕ
backoff_max = 30_000_000_000

-- The wait after a cycle and the number of the next attempt; a healthy cycle resets it.
pub after_cycle : Bool → ℕ → ℕ × ℕ
after_cycle healthy attempt =
    let counted = if healthy then 0 else attempt in
    (delay counted backoff_base backoff_max, suc counted)

module _ (world : World) where
  pub catch_up : ℕ → Watcher → ℕ → ℕ → Option (Watcher × Bool)
  catch_up fuel w head new_head =
      if ltb head new_head then backfill world fuel w (head + 1) new_head false else some (w, true)

  pub after_subscribe : ℕ → Watcher → ℕ → Option ℕ → Option (Watcher × Bool)
  unfolding catch_up
  after_subscribe fuel w head none = some (w, false)
  after_subscribe fuel w head (some new_head) = catch_up fuel w head new_head

  pub after_backfill : ℕ → Answers → ℕ → Option (Watcher × Bool) → Option (Watcher × Bool)
  unfolding after_subscribe
  after_backfill fuel a head none = none
  after_backfill fuel a head (some (w, false)) = some (w, false)
  after_backfill fuel a head (some (w, true)) =
      if a.subscribed then after_subscribe fuel w head a.new_head else some (w, false)

  pub from_head : ℕ → Watcher → Answers → Option ℕ → Option (Watcher × Bool)
  unfolding after_backfill
  from_head fuel w a none = some (w, false)
  from_head fuel w a (some head) =
      if a.cursor_read
      then after_backfill fuel a head (backfill world fuel w (start_block world w head) head true)
      else some (w, false)

  -- The cycle up to the live loop; none: out of fuel.
  pub before_live : ℕ → Watcher → Answers → Option (Watcher × Bool)
  unfolding from_head
  before_live fuel w a = from_head fuel w a a.head

  pub go_live : Option (Watcher × Bool) → List Event → Option Next
  go_live none es = none
  go_live (some (w, false)) es = some (stopped w false)
  go_live (some (w, true)) es = some (
      run_live world (running (record { watcher = w; buf = []; pending_block = 0; grew = false }))
        es)

  pub cycle : ℕ → Watcher → Answers → List Event → Option Next
  unfolding before_live go_live
  cycle fuel w a es = go_live (before_live fuel w a) es
