-- ===== src/Pricewatch/Settle.antt =====
-- services/pricewatch/internal/settle, with internal/clv and the trades of internal/store: once a
-- market has ended, the closing-line value of its trades is computed from the snapshot near the
-- close. A target before 1970 is 0 here: no snapshot is older, so the order of distances is the same.
pub mod Kept
pub mod Averages
mod Tests
use lobster_roll.Prelude.{
  ℕ, ◌-◌, Bool, true, false, List, [], ◌∷◌, Option, none, some, GoString, ◌≟◌, bytes_eq, ◌==◌, ltb,
  keep, not, if◌then◌else◌, ◌&&◌, ◌||◌, map, length, insert,
}
use lobster_roll.Float.{Float, ◌⊖◌, nought}
use lobster_roll.Pricewatch.Snapshots.{Row, nearest}

pub record Trade {ℓ} (F : Type ℓ) : Type ℓ where
  pub wallet : GoString
  pub token_id : GoString
  pub tx : GoString
  pub log_index : ℕ
  pub entry : F
  pub buy : Bool
  pub observed_unix : ℕ

-- A row of clv_trades.
pub record ClvRow {ℓ} (F : Type ℓ) : Type ℓ where
  pub trade : Trade F
  pub clv : F
  pub settled : Bool

module _ {ℓ} {F : Type ℓ} where
  -- The primary key.
  unfoldable pub same_key : Trade F → Trade F → Bool
  same_key t u = t.tx ≟ u.tx && t.log_index == u.log_index && t.wallet ≟ u.wallet

  unfoldable pub recorded : Trade F → List (ClvRow F) → Bool
  unfolding same_key
  recorded t [] = false
  recorded t (r ∷ rows) = same_key r.trade t || recorded t rows

  -- `RecordTrade`: INSERT … ON CONFLICT DO NOTHING, with the defaults of clv and settled.
  unfoldable pub record_trade : F → Trade F → List (ClvRow F) → List (ClvRow F)
  unfolding recorded
  record_trade zero_clv t rows =
      if recorded t rows then rows else record { trade = t; clv = zero_clv; settled = false } ∷ rows

  -- `UnsettledTrades`.
  unfoldable pub unsettled_trades : List (ClvRow F) → List (Trade F)
  unsettled_trades rows =
      map (λ (r : ClvRow F). r.trade) (keep (λ (r : ClvRow F). not r.settled) rows)

  -- `SetTradeCLV`.
  unfoldable pub set_trade_clv : Trade F → F → List (ClvRow F) → List (ClvRow F)
  unfolding same_key
  set_trade_clv t value [] = []
  set_trade_clv t value (r ∷ rows) =
      let rest = set_trade_clv t value rows in
      (if same_key r.trade t then record r { clv = value; settled = true } else r) ∷ rest

  -- The values of a wallet's settled trades.
  unfoldable pub settled_values : GoString → List (ClvRow F) → List F
  settled_values wallet rows =
      map (λ (r : ClvRow F). r.clv)
        (keep (λ (r : ClvRow F). r.trade.wallet ≟ wallet && r.settled) rows)

-- CLVAgg.
pub record ClvAgg {ℓ} (F : Type ℓ) : Type ℓ where
  pub avg_clv : F
  pub n : ℕ

unfoldable pub all_read : (GoString → Bool) → List GoString → Bool
all_read read_ok [] = true
all_read read_ok (w ∷ ws) = read_ok w && all_read read_ok ws

-- `WalletCLV`, with SQLite's AVG, and whether the table and each wallet's rows can be read: an error
-- ends the call with no answer.
module _ {ℓ} {F : Type ℓ} (avg : List F → F) where
  unfoldable pub add_wallet :
      GoString → List F → List (GoString × ClvAgg F) → List (GoString × ClvAgg F)
  add_wallet wallet values out =
      if ltb 0 (length values)
      then insert wallet (record { avg_clv = avg values; n = length values }) out
      else out

  unfoldable pub add_wallets :
      List GoString → List (ClvRow F) → List (GoString × ClvAgg F) → List (GoString × ClvAgg F)
  unfolding add_wallet settled_values
  add_wallets [] rows out = out
  add_wallets (w ∷ ws) rows out = add_wallets ws rows (add_wallet w (settled_values w rows) out)

  unfoldable pub wallet_clv :
      Bool
      → (GoString → Bool)
      → List GoString
      → List (ClvRow F)
      → Option (List (GoString × ClvAgg F))
  unfolding all_read add_wallets
  wallet_clv opened read_ok wallets rows =
      if opened && all_read read_ok wallets then some (add_wallets wallets rows []) else none

module _ {ℓ} {F : Type ℓ} ⦃d : Float F⦄ where
  -- `CLV`.
  unfoldable pub closing_line_value : F → F → Bool → F
  closing_line_value entry close buy = if buy then close ⊖ entry else entry ⊖ close

  -- The outside: the end of a token's market (0 for unknown, none for an error), and whether reading
  -- a snapshot and writing a value succeed.
  module _ (end_date : GoString → Option ℕ) (read_ok : GoString → Bool) (write_ok : Trade F → Bool)
      (buffer now : ℕ) (snapshots : List (Row F)) where
    -- The value that a trade settles at, if it can be settled now.
    unfoldable pub value_at : Trade F → Option (Row F) → Option F
    unfolding closing_line_value
    value_at t none = none
    value_at t (some snap) = some (closing_line_value t.entry snap.mid t.buy)

    unfoldable pub value_from : Trade F → Option ℕ → Option F
    unfolding value_at
    value_from t none = none
    value_from t (some end) =
        if end == 0 || ltb now end
        then none
        else if read_ok t.token_id
        then value_at t (nearest t.token_id (end - buffer) snapshots)
        else none

    unfoldable pub write : Trade F → Option F → List (ClvRow F) → List (ClvRow F)
    write t none rows = rows
    write t (some value) rows = if write_ok t then set_trade_clv t value rows else rows

    unfoldable pub settle_each : List (Trade F) → List (ClvRow F) → List (ClvRow F)
    unfolding value_from write
    settle_each [] rows = rows
    settle_each (t ∷ ts) rows = settle_each ts (write t (value_from t (end_date t.token_id)) rows)

    -- `Settler.Run`.
    unfoldable pub settle_run : List (ClvRow F) → List (ClvRow F)
    unfolding settle_each unsettled_trades
    settle_run rows = settle_each (unsettled_trades rows) rows
