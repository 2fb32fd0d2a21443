-- ===== src/Strategy/Decide/Tests.antt =====
-- A whale's buy of 1000 units at 0.40, mirrored for 25 dollars.
use lobster_roll.Prelude.{
  ◌≡◌, refl, true, false, none, some, pos, codes, ◌≟◌, bytes_eq, bytes_beq, if◌then◌else◌,
}
use lobster_roll.Float.{Fixed, fixed_float}
use lobster_roll.Bus.{TradeDetected, OrderProposal}
use lobster_roll.Strategy.Decide.{
  Numerals, Policy, Market, skip, sizing_fixed, decide, parsed, vet, limit_price, size_usd,
  market_inactive,
}

-- It reads "0.40" and "1000", and writes everything as "0.43".
abbrev pub numerals : Numerals Fixed
numerals = record {
  parse_float = λ s.
      if s ≟ codes "0.40"
      then some (some (pos 400_000))
      else if s ≟ codes "1000"
      then some (some (pos 1_000_000_000))
      else none;
  format_float = λ x. codes "0.43";
  round = λ x. x;
}

abbrev pub trade : TradeDetected
trade = record {
  wallet = codes "0xabc";
  token_id = codes "7";
  side = codes "buy";
  price = codes "0.40";
  size = codes "1000";
  tx_hash = codes "0x9";
  log_index = 4;
  block_number = 100;
  observed_at = 0;
  backfilled = false;
}

abbrev pub policy : Policy Fixed
policy = record {
  sizing = sizing_fixed;
  fixed_usd = some (pos 25_000_000);
  proportion = some (pos 0);
  min_size_usd = some (pos 1_000_000);
  max_size_usd = some (pos 50_000_000);
  max_slippage = some (pos 30_000);
  min_liquidity_usd = some (pos 100_000_000);
}

abbrev market : Market Fixed
market = record {
  current_price = some (pos 420_000);
  liquidity_usd = some (pos 500_000_000);
  condition_id = codes "c";
  active = true;
  allowed = true;
}

abbrev mirrored : OrderProposal Fixed
mirrored = record {
  id = codes "prop-0x9-4-0xabc";
  source_trade = trade;
  token_id = codes "7";
  side = codes "buy";
  limit_price = codes "0.43";
  size_usd = some (pos 25_000_000);
  reason = codes "mirror whale 0xabc";
}

inactive_run :
    decide numerals trade (record market { active = false }) policy ≡ skip market_inactive
unfolding decide parsed vet bytes_beq
inactive_run = refl
