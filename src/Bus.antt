-- ===== src/Bus.antt =====
-- pkg/bus/events.go: the messages of the pipeline. Times are unix seconds.
use lobster_roll.Prelude.{ℕ, Bool, List, GoString}

pub record TradeDetected : Type 0 where
  pub wallet : GoString
  pub token_id : GoString
  pub side : GoString
  pub price : GoString
  pub size : GoString
  pub tx_hash : GoString
  pub log_index : ℕ
  pub block_number : ℕ
  pub observed_at : ℕ
  pub backfilled : Bool

pub record OrderProposal {ℓ} (F : Type ℓ) : Type ℓ where
  pub id : GoString
  pub source_trade : TradeDetected
  pub token_id : GoString
  pub side : GoString
  pub limit_price : GoString
  pub size_usd : F
  pub reason : GoString

pub record OrderDecision {ℓ} (F : Type ℓ) : Type ℓ where
  pub proposal : OrderProposal F
  pub approved : Bool
  pub by : GoString

pub record ControlMsg : Type 0 where
  pub halted : Bool
  pub by : GoString

pub record ConsensusSignal {ℓ} (F : Type ℓ) : Type ℓ where
  pub token_id : GoString
  pub side : GoString
  pub wallets : List GoString
  pub count : ℕ
  pub combined_usd : F
  pub window_secs : ℕ
  pub observed_at : ℕ
