-- ===== src/Sizing/Tests.antt =====
-- A run of pkg/sizing, and its theorems at it.
use lobster_roll.Prelude.{◌≡◌, refl, true, false, some, pos, if◌then◌else◌}
use lobster_roll.Float.{
  Fixed, fixed_float, Fixed-IsOrdered, Fixed-IsRounded, add_fixed, sub_fixed, mul_fixed, div_fixed,
  ◌<?◌, ◌≤?◌, ◌⊗◌, nought, one,
}
use lobster_roll.Sizing.{
  Inputs, Config, sized, leader_cooling_off, size, edge, cost, edge_eff, kelly_stake, per_bet_cap,
  capped_stake, available, skip,
}
use lobster_roll.Sizing.Caps.{size_gates, size_caps}

-- A fresh leader with an average closing-line value of 0.10 over 50 trades, on a market at 0.50,
-- and a bankroll of 1000.
abbrev signal : Inputs Fixed
signal = record {
  price = some (pos 500_000);
  half_spread = some (pos 5_000);
  fee_rate = some (pos 0);
  slippage = some (pos 0);
  avg_clv = some (pos 100_000);
  clv_n = 50;
  shrunk_roi = some (pos 200_000);
  fresh = true;
  bankroll = some (pos 1_000_000_000);
  exposure = some (pos 0);
  drawdown_frac = some (pos 0);
  depth_cap_usd = some (pos 500_000_000);
}

abbrev policy : Config Fixed
policy = record {
  kelly_fraction = some (pos 250_000);
  edge_buffer = some (pos 20_000);
  max_spread = some (pos 20_000);
  per_bet_frac = some (pos 20_000);
  max_exposure_frac = some (pos 300_000);
  dd_derisk = some (pos 100_000);
  dd_stop = some (pos 250_000);
  clv_full = 50;
  min_stake_usd = some (pos 1_000_000);
}

-- Quarter Kelly asks for 47.50; the per-bet cap is 20.
bets_twenty : size signal policy ≡ record { stake = some (pos 20_000_000); reason = sized }
unfolding size edge cost edge_eff kelly_stake per_bet_cap capped_stake available add_fixed sub_fixed
    mul_fixed div_fixed
bets_twenty = refl

refuses_stale :
    size (record signal { fresh = false }) policy
    ≡ record { stake = some (pos 0); reason = leader_cooling_off }
unfolding size skip
refuses_stale = refl

size_gates_run :
    ((signal.bankroll ≤? nought) ≡ false)
    × ((signal.price ≤? nought) ≡ false)
    × ((one ≤? signal.price) ≡ false)
    × (signal.fresh ≡ true)
    × ((policy.max_spread <? some (pos 2_000_000) ⊗ signal.half_spread) ≡ false)
    × ((policy.dd_stop ≤? signal.drawdown_frac) ≡ false)
    × ((edge signal policy ≤? nought) ≡ false)
    × ((edge_eff signal policy ≤? policy.edge_buffer) ≡ false)
size_gates_run = size_gates signal policy (rw bets_twenty)

size_caps_example :
    let stake = (size signal policy).stake in
    ((stake ≤? per_bet_cap signal policy) ≡ true)
    × ((if nought <? signal.depth_cap_usd then stake ≤? signal.depth_cap_usd else true) ≡ true)
    × ((stake ≤? available signal policy) ≡ true)
    × ((stake <? policy.min_stake_usd) ≡ false)
unfolding edge cost edge_eff kelly_stake per_bet_cap available add_fixed sub_fixed mul_fixed
    div_fixed
size_caps_example =
    size_caps Fixed-IsOrdered Fixed-IsRounded signal policy (rw bets_twenty) refl refl refl refl
