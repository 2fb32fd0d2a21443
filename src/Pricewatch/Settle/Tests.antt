-- ===== src/Pricewatch/Settle/Tests.antt =====
-- One trade of an ended market and one of a running market.
use lobster_roll.Prelude.{
  ℕ, ◌≡◌, refl, true, false, List, [], ◌∷◌, Option, some, pos, GoString, codes, ◌≟◌, bytes_eq,
  bytes_beq, if◌then◌else◌, keep,
}
use lobster_roll.Float.{Fixed, fixed_float, sub_fixed}
use lobster_roll.Pricewatch.Snapshots.{Row, nearest, better, comes_first, distance}
use lobster_roll.Pricewatch.Snapshots.Closest.{NotNearer, nearest-NotNearer}
use lobster_roll.Pricewatch.Settle.{
  Trade, ClvRow, settle_run, settle_each, unsettled_trades, value_from, value_at, write,
  set_trade_clv, same_key, closing_line_value,
}
use lobster_roll.Prelude.{All}

abbrev ended : Trade Fixed
ended = record {
  wallet = codes "w";
  token_id = codes "7";
  tx = codes "x";
  log_index = 1;
  entry = some (pos 400_000);
  buy = true;
  observed_unix = 500;
}

abbrev open_row : ClvRow Fixed
open_row = record { trade = ended; clv = some (pos 0); settled = false }

abbrev rows : List (ClvRow Fixed)
rows =
    open_row ∷ record open_row { trade = record ended { token_id = codes "8"; log_index = 2 } } ∷ []

abbrev snapshots : List (Row Fixed)
snapshots =
    record { token_id = codes "7"; ts = 600; mid = some (pos 300_000) }
    ∷ record { token_id = codes "7"; ts = 890; mid = some (pos 550_000) }
    ∷ []

-- The market of token 7 ends at 1000, that of token 8 at 3000.
abbrev end_date : GoString → Option ℕ
end_date token = if token ≟ codes "7" then some 1000 else some 3000

settled_run :
    settle_run end_date (λ t. true) (λ t. true) 100 2000 snapshots rows
    ≡ record open_row { clv = some (pos 150_000); settled = true }
      ∷ record open_row { trade = record ended { token_id = codes "8"; log_index = 2 } }
      ∷ []
unfolding settle_run settle_each unsettled_trades value_from value_at write set_trade_clv same_key
    closing_line_value nearest better comes_first distance bytes_beq keep sub_fixed
settled_run = refl

abbrev close : Row Fixed
close = record { token_id = codes "7"; ts = 890; mid = some (pos 550_000) }

close_run : nearest (codes "7") 900 snapshots ≡ some close
unfolding nearest better comes_first distance bytes_beq
close_run = refl

nearest-NotNearer_run :
    (close.token_id ≡ codes "7") × All (NotNearer (codes "7") 900 close) snapshots
nearest-NotNearer_run = nearest-NotNearer (codes "7") 900 snapshots close_run
