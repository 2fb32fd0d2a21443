-- ===== src/Pricewatch/Capture.antt =====
-- services/pricewatch: internal/capture, the tracker of the traded tokens and its polls, and the three
-- loops of main.go on the store: trades of the bus, polls and settling passes. A duration of the
-- configuration is in whole seconds, as the code reads it; times are unix seconds. A poll is one step:
-- while it fetches, its lock is free, but a trade only adds to the tracker then.
pub mod Kept
pub mod Closing
mod Tests
use lobster_roll.Prelude.{
  ℕ, ◌-◌, Bool, true, false, not, List, [], ◌∷◌, Option, none, some, GoString, codes, ◌≟◌, bytes_eq,
  ltb, length, insert, keep, to_lower, if◌then◌else◌,
}
use lobster_roll.Float.{Float, nought}
use lobster_roll.Bus.{TradeDetected}
use lobster_roll.Pricewatch.Snapshots.{Row, put, prune}
use lobster_roll.Pricewatch.Settle.{Trade, ClvRow, record_trade, settle_run}

pub record Tracker : Type 0 where
  pub seen : List (GoString × ℕ)
  pub ttl : ℕ

unfoldable pub track : Tracker → GoString → ℕ → Tracker
track t token now = if token ≟ [] then t else record t { seen = insert token now t.seen }

-- `Active`.
pub active : Tracker → ℕ
active t = length t.seen

unfoldable pub live : ℕ → ℕ → List (GoString × ℕ) → List (GoString × ℕ)
live ttl now = keep (λ r. not (ltb ttl (now - r.1)))

-- What the exchange quotes during a poll, none for an error, and whether a snapshot can be stored.
pub record Prices {ℓ} (F : Type ℓ) : Type ℓ where
  pub midpoint : GoString → Option F
  pub put_ok : GoString → Bool

module _ {ℓ} {F : Type ℓ} where
  unfoldable pub stored : Bool → Row F → List (Row F) → List (Row F)
  stored ok r rows = if ok then put r rows else rows

  unfoldable pub snapshot : Prices F → ℕ → GoString → Option F → List (Row F) → List (Row F)
  unfolding stored
  snapshot p now token none rows = rows
  snapshot p now token (some mid) rows =
      stored (p.put_ok token) (record { token_id = token; ts = now; mid = mid }) rows

  unfoldable pub snapshot_all : Prices F → ℕ → List (GoString × ℕ) → List (Row F) → List (Row F)
  unfolding snapshot
  snapshot_all p now [] rows = rows
  snapshot_all p now ((token, last) ∷ rest) rows =
      snapshot_all p now rest (snapshot p now token (p.midpoint token) rows)

  -- `Poll`.
  unfoldable pub poll : Tracker → List (Row F) → Prices F → ℕ → Tracker × List (Row F)
  unfolding live snapshot_all
  poll t rows p now =
      (record t { seen = live t.ttl now t.seen }, snapshot_all p now (live t.ttl now t.seen) rows)

-- The state of the service.
pub record World {ℓ} (F : Type ℓ) : Type ℓ where
  pub tracker : Tracker
  pub snapshots : List (Row F)
  pub trades : List (ClvRow F)

-- What the loops do next, with what the outside answers: a trade and whether it can be recorded; a
-- poll and whether old rows can be deleted; a settling pass.
pub data Event {ℓ} (F : Type ℓ) : Type ℓ where
  traded : TradeDetected → Bool → ℕ → Event F
  polled : Prices F → Bool → ℕ → Event F
  settling : (GoString → Option ℕ) → (GoString → Bool) → (Trade F → Bool) → ℕ → Event F

module _ {ℓ} {F : Type ℓ} ⦃d : Float F⦄ (parse_float : GoString → Option F)
    (retention buffer : ℕ) where
  unfoldable pub trade_of : TradeDetected → F → ℕ → Trade F
  trade_of td entry now = record {
    wallet = td.wallet;
    token_id = td.token_id;
    tx = td.tx_hash;
    log_index = td.log_index;
    entry = entry;
    buy = to_lower td.side ≟ codes "buy";
    observed_unix = now;
  }

  unfoldable pub recorded_trade :
      TradeDetected → Bool → ℕ → Option F → List (ClvRow F) → List (ClvRow F)
  unfolding trade_of
  recorded_trade td ok now none rows = rows
  recorded_trade td ok now (some entry) rows =
      if ok then record_trade nought (trade_of td entry now) rows else rows

  -- The handler of a detected trade.
  unfoldable pub on_trade : World F → TradeDetected → Bool → ℕ → World F
  unfolding track recorded_trade
  on_trade w td ok now = record w {
    tracker = track w.tracker td.token_id now;
    trades = recorded_trade td ok now (parse_float td.price) w.trades;
  }

  unfoldable pub pruned : Bool → ℕ → List (Row F) → List (Row F)
  pruned ok now rows = if ok then prune (now - retention) rows else rows

  -- A tick of `pollLoop`.
  unfoldable pub poll_tick : World F → Prices F → Bool → ℕ → World F
  unfolding poll pruned
  poll_tick w p ok now =
      let (tracker, rows) = poll w.tracker w.snapshots p now in
      record w { tracker = tracker; snapshots = pruned ok now rows }

  unfoldable pub step : World F → Event F → World F
  unfolding on_trade poll_tick
  step w (traded td ok now) = on_trade w td ok now
  step w (polled p ok now) = poll_tick w p ok now
  step w (settling end_date read_ok write_ok now) = record w {
    trades = settle_run end_date read_ok write_ok buffer now w.snapshots w.trades;
  }

  unfoldable pub run : World F → List (Event F) → World F
  unfolding step
  run w [] = w
  run w (e ∷ es) = run (step w e) es
