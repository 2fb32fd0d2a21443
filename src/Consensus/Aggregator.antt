-- ===== src/Consensus/Aggregator.antt =====
-- services/consensus/internal/aggregator/aggregator.go: from a detected trade to a consensus signal.
-- The store's clock and the aggregator's are one reading.
pub mod Signals
mod Tests
use lobster_roll.Prelude.{ℕ, Bool, true, false, Option, none, some, List, [], ◌∷◌, if◌then◌else◌}
use lobster_roll.Float.{Float}
use lobster_roll.Bus.{TradeDetected, ConsensusSignal}
use lobster_roll.Consensus.Window.{Store, Cohort, cohort_count, BigFloat, record_trade}

-- The window and the signals that were published, latest first.
pub record Aggregator {ℓ} (F : Type ℓ) : Type ℓ where
  pub store : Store F
  pub window_secs : ℕ
  pub published : List (ConsensusSignal F)

module _ {ℓ} {F : Type ℓ} where
  pub signal_of : ℕ → ℕ → TradeDetected → Cohort F → ConsensusSignal F
  signal_of window_secs now td c = record {
    token_id = td.token_id;
    side = td.side;
    wallets = c.wallets;
    count = cohort_count c;
    combined_usd = c.combined_usd;
    window_secs = window_secs;
    observed_at = now;
  }

  -- What `Handle` does with the answer of `Record`; publishing may fail.
  pub publish : Bool → ℕ → TradeDetected → Option (Cohort F × Bool) → Aggregator F → Aggregator F
  publish pub_ok now td none a = a
  publish pub_ok now td (some (c, fire)) a =
      if fire
      then (if pub_ok
          then record a { published = signal_of a.window_secs now td c ∷ a.published }
          else a)
      else a

module _ {ℓ} {F B : Type ℓ} ⦃d : Float F⦄ (big : BigFloat B F) where
  pub handle : Bool → Bool → ℕ → TradeDetected → Aggregator F → Aggregator F
  handle db_ok pub_ok now td a =
      if td.backfilled
      then a
      else (let (store, answer) = record_trade big db_ok now td a.store in
          publish pub_ok now td answer (record a { store = store }))
