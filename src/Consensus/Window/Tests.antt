-- ===== src/Consensus/Window/Tests.antt =====
-- Runs of the window, and its theorems at concrete tables.
use lobster_roll.Prelude.{
  ℕ, ◌-◌, ◌≤◌, ◌≡◌, refl, true, false, ◌&&◌, List, [], ◌∷◌, none, some, GoString, codes, ltb, leb,
  bytes_eq, bytes_beq, bytes_lt, has, Distinct, IsSorted, All, pos, keep, sort_by, arith,
}
use lobster_roll.Float.{Fixed, fixed_float, add_fixed}
use lobster_roll.Bus.{TradeDetected}
use lobster_roll.Consensus.Window.{
  Event, Store, BigFloat, cohort_of, in_cohort, group_by_wallet, add_to_group, wallets_of,
  sum_groups, decide_fire, fired_count, record_trade,
}
use lobster_roll.Consensus.Window.Cohorts.{cohort_of-wallets, traded_by}
use lobster_roll.Consensus.Window.Fired.{
  decide_all, decide_fire_once, decide_fire_resets, IsLive, record_trade-IsLive,
}

abbrev trade : GoString → ℕ → Event Fixed
trade w t = record {
  token_id = codes "42";
  side = codes "buy";
  wallet = w;
  usdc = some (pos 10_000_000);
  observed_unix = t;
}

abbrev three_trades : List (Event Fixed)
three_trades = trade (codes "0xb") 100 ∷ trade (codes "0xa") 110 ∷ trade (codes "0xb") 120 ∷ []

cohort_of_two :
    cohort_of (codes "42") (codes "buy") 90 three_trades
    ≡ record { wallets = codes "0xa" ∷ codes "0xb" ∷ []; combined_usd = some (pos 30_000_000) }
unfolding cohort_of keep in_cohort group_by_wallet add_to_group wallets_of sum_groups sort_by
    bytes_lt bytes_beq add_fixed
cohort_of_two = refl

cohort_of-wallets_example :
    let ws = (cohort_of (codes "42") (codes "buy") 90 three_trades).wallets in
    (has (codes "0xa") ws ≡ traded_by (codes "42") (codes "buy") 90 (codes "0xa") three_trades)
    × Distinct ws
    × IsSorted bytes_lt ws
cohort_of-wallets_example =
    cohort_of-wallets (codes "42") (codes "buy") 90 three_trades (codes "0xa")

decide_fire_once_run :
    let (rs, fires) =
      decide_all 2
        (codes "42")
        (codes "buy")
        ((11, 2) ∷ (12, 3) ∷ [])
        (decide_fire 2 (codes "42") (codes "buy") 3 10 []).0 in
    All (λ b. b ≡ false) fires
    × ((decide_fire 2 (codes "42") (codes "buy") 4 20 rs).1 ≡ (leb 2 4 && ltb 3 4))
unfolding decide_fire fired_count
decide_fire_once_run =
    decide_fire_once 2 (codes "42") (codes "buy") 10 20 3 4 ((11, 2) ∷ (12, 3) ∷ []) [] refl
      (omega arith)

decide_fire_resets_run :
    ((decide_fire 2 (codes "42") (codes "buy") 1 10 []).1 ≡ false)
    × ((decide_fire 2
          (codes "42")
          (codes "buy")
          2
          20
          (decide_fire 2 (codes "42") (codes "buy") 1 10 []).0).1
        ≡ true)
decide_fire_resets_run =
    decide_fire_resets 2 (codes "42") (codes "buy") 10 20 1 2 [] (omega arith) (omega arith)

-- A stand-in for math/big that reads nothing.
abbrev pub no_big : BigFloat ℕ Fixed
no_big = record { parse = λ s. none; times = λ a b. a; to_float64 = λ a. none }

abbrev pub detected : TradeDetected
detected = record {
  wallet = codes "0xC";
  token_id = codes "42";
  side = codes "BUY";
  price = codes "0.5";
  size = codes "10";
  tx_hash = codes "0x1";
  log_index = 0;
  block_number = 7;
  observed_at = 130;
  backfilled = false;
}

abbrev pub window_store : Store Fixed
window_store = record { window = 40; min_wallets = 2; events = three_trades; fired = [] }

record_trade-IsLive_run :
    let after = (record_trade no_big true 145 detected window_store).0 in
    All (λ e. 145 - 40 ≤ e.observed_unix) after.events
    × All (IsLive 2 (145 - 40) after.events) after.fired
record_trade-IsLive_run = record_trade-IsLive no_big 145 detected window_store tt
