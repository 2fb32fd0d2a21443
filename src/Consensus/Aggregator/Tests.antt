-- ===== src/Consensus/Aggregator/Tests.antt =====
-- The theorems on consensus signals at a trade that completes a cohort.
use lobster_roll.Prelude.{
  ◌-◌, ◌≤◌, ◌≡◌, refl, true, false, [], ◌∷◌, ◌++◌, has, Distinct, length, codes, bytes_eq,
  bytes_beq, bytes_lt, keep, sort_by, to_lower, trim_space, some, pos, ℕ, none,
}
use lobster_roll.Float.{Fixed, fixed_float}
use lobster_roll.Bus.{TradeDetected}
use lobster_roll.Consensus.Window.{
  BigFloat, event_of, usdc_value, prune, reap, in_cohort, any_event, group_by_wallet, add_to_group,
  wallets_of, sum_groups, cohort_of, cohort_count, decide_fire, fired_count, upsert_fired,
  record_trade,
}
use lobster_roll.Consensus.Window.Cohorts.{traded_by}
use lobster_roll.Consensus.Aggregator.{Aggregator, handle, publish}
use lobster_roll.Consensus.Aggregator.Signals.{cohort_at, handle-backfilled, handle-published}

-- A stand-in for math/big that reads nothing.
abbrev no_big : BigFloat ℕ Fixed
no_big = record { parse = λ s. none; times = λ a b. a; to_float64 = λ a. none }

abbrev second : TradeDetected
second = record {
  wallet = codes "0xB";
  token_id = codes "42";
  side = codes "BUY";
  price = codes "0.5";
  size = codes "10";
  tx_hash = codes "0x1";
  log_index = 0;
  block_number = 7;
  observed_at = 130;
  backfilled = false;
}

abbrev first_seen : Aggregator Fixed
first_seen = record {
  store = record {
    window = 60;
    min_wallets = 2;
    events =
        record {
          token_id = codes "42";
          side = codes "buy";
          wallet = codes "0xa";
          usdc = some (pos 10_000_000);
          observed_unix = 100;
        }
        ∷ [];
    fired = [];
  };
  window_secs = 60;
  published = [];
}

handle-backfilled_run :
    handle no_big true true 130 (record second { backfilled = true }) first_seen ≡ first_seen
handle-backfilled_run =
    handle-backfilled no_big true true 130 (record second { backfilled = true }) first_seen refl

handle-published_example :
    let c = cohort_at no_big 130 second first_seen.store in
    let row = event_of no_big 130 second in
    let events = prune (130 - 60) (first_seen.store.events ++ row ∷ []) in
    (second.backfilled ≡ false)
    × ((handle no_big true true 130 second first_seen).published
        ≡ record {
          token_id = second.token_id;
          side = second.side;
          wallets = c.wallets;
          count = length c.wallets;
          combined_usd = c.combined_usd;
          window_secs = 60;
          observed_at = 130;
        }
          ∷ [])
    × (has (codes "0xb") c.wallets
        ≡ traded_by row.token_id row.side (130 - 60) (codes "0xb") events)
    × Distinct c.wallets
    × (2 ≤ length c.wallets)
unfolding handle publish record_trade cohort_count cohort_of event_of prune reap in_cohort any_event
    group_by_wallet add_to_group wallets_of sum_groups decide_fire fired_count upsert_fired keep
    sort_by bytes_lt bytes_beq to_lower trim_space usdc_value
handle-published_example =
    handle-published no_big true true 130 second first_seen (codes "0xb") (λ e. cc)
