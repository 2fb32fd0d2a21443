-- ===== src/Leaderboard/Records/Tests.antt =====
-- An upsert of a wallet that is there keeps its score and its closing-line value.
use lobster_roll.Prelude.{
  ◌≡◌, refl, false, List, [], some, pos, GoString, codes, lookup, insert, bytes_beq,
}
use lobster_roll.Float.{Fixed, fixed_float}
use lobster_roll.Leaderboard.Records.{
  StatsRecord, set_skill_score, set_wallet_clv, get_stats, upsert_stats,
}

abbrev row : StatsRecord Fixed
row = record {
  wallet = codes "w";
  win_rate = some (pos 600_000);
  resolved_markets = 20;
  realized_pnl = some (pos 0);
  roi = some (pos 0);
  skill_score = 0;
  fresh = false;
  avg_clv = some (pos 0);
  clv_n = 0;
  profit_30d = some (pos 0);
  portfolio_value = some (pos 0);
  traded_markets = 30;
  computed_unix = 100;
}

abbrev rated : List (GoString × StatsRecord Fixed)
rated =
    set_wallet_clv (codes "w") (some (pos 50_000)) 7
      (set_skill_score (codes "w") 80 (upsert_stats row []))

upserted_run :
    get_stats (codes "w") (upsert_stats (record row { computed_unix = 200 }) rated)
    ≡ some (record row {
      computed_unix = 200;
      skill_score = 80;
      avg_clv = some (pos 50_000);
      clv_n = 7;
    })
unfolding get_stats upsert_stats lookup insert set_wallet_clv set_skill_score bytes_beq
upserted_run = refl
