-- ===== src/Pricewatch/Capture/Tests.antt =====
-- A token is traded, polled and settled; another is forgotten.
use lobster_roll.Prelude.{
  ◌≡◌, ◌≤◌, refl, true, false, List, [], ◌∷◌, Option, none, some, pos, GoString, codes, ◌≟◌,
  bytes_eq, bytes_beq, insert, keep, arith, to_lower, map, if◌then◌else◌,
}
use lobster_roll.Float.{Fixed, fixed_float, sub_fixed}
use lobster_roll.Bus.{TradeDetected}
use lobster_roll.Pricewatch.Snapshots.{Row, nearest, distance, put, prune}
use lobster_roll.Pricewatch.Settle.{ClvRow, settle_run, record_trade, set_trade_clv}
use lobster_roll.Pricewatch.Capture.{Prices, World, Event, traded, polled, settling, run}
use lobster_roll.Pricewatch.Capture.Closing.{run-nearest}

abbrev trade : TradeDetected
trade = record {
  wallet = codes "w";
  token_id = codes "7";
  side = codes "BUY";
  price = codes "0.4";
  size = codes "1";
  tx_hash = codes "x";
  log_index = 1;
  block_number = 5;
  observed_at = 100;
  backfilled = false;
}

abbrev price_of : GoString → Option Fixed
price_of s = if s ≟ codes "0.4" then some (some (pos 400_000)) else none

abbrev quotes : Prices Fixed
quotes = record {
  midpoint = λ token. if token ≟ codes "7" then some (some (pos 550_000)) else none;
  put_ok = λ token. true;
}

abbrev world : World Fixed
world = record {
  tracker = record { seen = (codes "8", 10) ∷ []; ttl = 60 };
  snapshots = [];
  trades = [];
}

-- The trade at 100, a poll at 150, and a settling pass at 300 of a market that ended at 160.
abbrev events : List (Event Fixed)
events =
    traded trade true 100
    ∷ polled quotes true 150
    ∷ settling (λ token. some 160) (λ token. true) (λ t. true) 300
    ∷ []

settled_run :
    ((run price_of 1_000 0 world events).tracker.seen ≡ (codes "7", 100) ∷ [])
    × (map (λ (r : ClvRow Fixed). r.clv) (run price_of 1_000 0 world events).trades
        ≡ some (pos 150_000) ∷ [])
unfolding run keep bytes_beq insert settle_run record_trade nearest prune put set_trade_clv to_lower
    sub_fixed
settled_run = (refl, refl)

run-nearest_example :
    (best : Row Fixed) × (nearest
        (codes "7")
        160
        (run price_of 1_000 0 world (traded trade true 100 ∷ polled quotes true 150 ∷ [])).snapshots
      ≡ some best)
    × (best.token_id ≡ codes "7")
    × (distance best.ts 160 ≤ distance 150 160)
unfolding bytes_beq
run-nearest_example =
    run-nearest price_of 1_000 0 world trade true 100 [] quotes true 150 (some (pos 550_000)) [] 160
      refl tt (omega arith) refl refl tt
