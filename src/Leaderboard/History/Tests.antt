-- ===== src/Leaderboard/History/Tests.antt =====
-- Runs of the statistics, and examples for their theorems.
use lobster_roll.Prelude.{
  ℕ, ◌≤◌, ◌≡◌, refl, List, [], ◌∷◌, some, GoString, codes, pos, negsuc, length, bytes_eq, lookup,
  keep, map, IsSorted, sort_by, insert, bytes_beq,
}
use lobster_roll.Float.{Fixed, fixed_float, add_fixed, sub_fixed, mul_fixed, div_fixed}
use lobster_roll.Leaderboard.History.{Activity, resolved_of, older, enter_all, compute}
use lobster_roll.Leaderboard.History.Markets.{Kept, in_market, enter_all-Kept}
use lobster_roll.Leaderboard.History.Totals.{
  has_cost, return_of, history, compute-counts, compute-returns,
}

abbrev event : GoString → GoString → ℕ → ℕ → GoString → ℕ → Activity Fixed
event kind side size usdc market at = record {
  kind = kind;
  side = side;
  size = some (pos size);
  usdc_size = some (pos usdc);
  condition_id = market;
  timestamp = at;
}

-- A market won by redeeming, one sold out at a loss, and one still open.
abbrev pub acts : List (Activity Fixed)
acts =
    event (codes "TRADE") (codes "BUY") 10_000_000 5_000_000 (codes "b") 20
    ∷ event (codes "TRADE") (codes "BUY") 10_000_000 4_000_000 (codes "a") 10
    ∷ event (codes "TRADE") (codes "SELL") 10_000_000 3_000_000 (codes "a") 30
    ∷ event (codes "REDEEM") [] 0 10_000_000 (codes "b") 40
    ∷ event (codes "TRADE") (codes "BUY") 1_000_000 1_000_000 (codes "c") 50
    ∷ event (codes "REWARD") [] 0 9_000_000 (codes "c") 60
    ∷ []

computed : compute acts ≡ record {
  win_rate = some (pos 500_000);
  resolved_markets = 2;
  realized_pnl = some (pos 4_000_000);
  capital_deployed = some (pos 9_000_000);
  roi = some (pos 444_444);
  returns = some (negsuc 249_999) ∷ some (pos 1_000_000) ∷ [];
  traded_markets = 3;
}
unfolding compute sort_by insert bytes_beq lookup add_fixed sub_fixed mul_fixed div_fixed
computed = refl

enter_all-Kept_example :
    Kept (keep (in_market (codes "a")) acts) (lookup (codes "a") (enter_all [] acts))
enter_all-Kept_example = enter_all-Kept (codes "a") acts

compute-counts_run :
    ((compute acts).traded_markets ≡ length (enter_all [] acts))
    × ((compute acts).resolved_markets ≡ length (resolved_of (enter_all [] acts)))
    × ((compute acts).resolved_markets ≤ (compute acts).traded_markets)
    × (length (compute acts).returns ≤ (compute acts).resolved_markets)
compute-counts_run = compute-counts acts

compute-returns_run :
    ((compute acts).returns ≡ map return_of (keep has_cost (history acts)))
    × IsSorted older (history acts)
compute-returns_run = compute-returns acts
