-- ===== src/Strategy/Handler/Tests.antt =====
-- A trade that comes twice, the second time with the bus up.
use lobster_roll.Prelude.{◌≡◌, ◌≢◌, true, [], none, some, pos, codes, arith}
use lobster_roll.Float.{Fixed, fixed_float}
use lobster_roll.Dedup.GenSet.{new_gen}
use lobster_roll.Strategy.Decide.Tests.{numerals, trade, policy}
use lobster_roll.Strategy.Handler.{Handler, fetch_failed, fetched, MarketData, handle}
use lobster_roll.Strategy.Handler.Once.{handle-again}

abbrev fresh : Handler Fixed
fresh = record { seen = new_gen; published = [] }

abbrev market : MarketData Fixed
market = record {
  current_price = some (pos 420_000);
  liquidity_usd = some (pos 500_000_000);
  condition_id = codes "c";
  active = true;
}

is_fetched : fetched market ≢ fetch_failed
is_fetched e = ground arith

handle-again_run :
    let once = handle numerals policy [] fresh trade (fetched market) none true in
    (handle numerals policy [] once trade (fetched market) none true).published ≡ once.published
handle-again_run =
    handle-again numerals policy [] fresh trade (fetched market) (fetched market) none none true
      true is_fetched
