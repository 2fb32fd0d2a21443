-- ===== src/Leaderboard/Syncer/Tests.antt =====
-- A refresh that follows two wallets, and examples for the theorems.
use lobster_roll.Prelude.{
  ◌≤◌, ◌≡◌, refl, ◌⊎◌, true, false, not, List, [], ◌∷◌, Option, none, some, GoString, codes, ◌≟◌,
  bytes_eq, pos, length, lookup, has, take, Distinct, if◌then◌else◌, ◌&&◌, bytes_beq,
}
use lobster_roll.Float.{Fixed, fixed_float}
use lobster_roll.Leaderboard.Selection.{Candidate, Stats}
use lobster_roll.Leaderboard.Watchset.Tests.{store}
use lobster_roll.Leaderboard.Records.{StatsRecord}
use lobster_roll.Leaderboard.History.Tests.{acts}
use lobster_roll.Leaderboard.Skill.Tests.{reals}
use lobster_roll.Leaderboard.Syncer.Crawl.{Answers, State, crawl_all}
use lobster_roll.Leaderboard.Syncer.{
  StatsConfig, Entry, candidate_windows, candidate_pool, returned, clear_stale, refresh,
}
use lobster_roll.Leaderboard.Syncer.Candidates.{
  answers, on_pages, wallets_of, candidate_pool-Distinct,
}
use lobster_roll.Leaderboard.Syncer.Follows.{Told, refresh-Told}
use lobster_roll.Leaderboard.Syncer.Rows.{
  kept_of, cleared, listed, lookup-clear_stale, crawl_all-kept,
}

abbrev cfg : StatsConfig Fixed
cfg = record {
  window = codes "1d";
  max_candidates = 3;
  min_resolved = 2;
  min_win_rate = some (pos 500_000);
  min_portfolio_usd = some (pos 0);
  min_realized_pnl = some (pos 0);
  require_fresh = true;
  shrink_k = some (pos 50_000_000);
  top_n = pos 2;
}

-- The 30d page answers, and the others do not.
abbrev fetch : GoString → Option (List (Entry Fixed))
fetch w =
    if w ≟ codes "30d"
    then some (
        record { wallet = codes "0xb"; amount = some (pos 7_000_000) }
        ∷ record { wallet = codes "0xc"; amount = some (pos 5_000_000) }
        ∷ record { wallet = codes "0xb"; amount = some (pos 1_000_000) }
        ∷ [])
    else none

abbrev replies : Answers Fixed
replies = record {
  now = 99;
  activity = λ w. some acts;
  portfolio = λ w. none;
  upserted = λ w. true;
  score_written = λ w. true;
  clv_on = true;
  clv = some (record { wallet = codes "0xb"; avg_clv = some (pos 20_000); n = 10 } ∷ []);
  clv_written = λ w. true;
  opened = true;
  written = true;
  synced = true;
}

abbrev row : StatsRecord Fixed
row = record {
  wallet = codes "0xc";
  win_rate = some (pos 0);
  resolved_markets = 0;
  realized_pnl = some (pos 0);
  roi = some (pos 0);
  skill_score = 70;
  fresh = true;
  avg_clv = some (pos 30_000);
  clv_n = 4;
  profit_30d = some (pos 0);
  portfolio_value = some (pos 0);
  traded_markets = 0;
  computed_unix = 1;
}

abbrev state : State Fixed
state = record { store = store; rows = (codes "0xc", row) ∷ []; sent = [] }

refresh-Told_example : Told state (refresh reals cfg state replies fetch).0
refresh-Told_example = refresh-Told reals cfg state replies fetch

candidate_pool-Distinct_example :
    ((answers fetch (candidate_windows cfg) ≡ false) × (candidate_pool cfg fetch ≡ none))
    ⊎ ((cs : List (Candidate Fixed)) × (answers fetch (candidate_windows cfg) ≡ true)
        × (candidate_pool cfg fetch ≡ some (take 3 cs))
        × Distinct (wallets_of cs)
        × ((v : GoString) → has v (wallets_of cs) ≡ on_pages fetch v (candidate_windows cfg))
        × Distinct (wallets_of (take 3 cs))
        × (length (take 3 cs) ≤ 3))
candidate_pool-Distinct_example = candidate_pool-Distinct cfg fetch

abbrev candidates : List (Candidate Fixed)
candidates = record { wallet = codes "0xc"; profit_30d = some (pos 0) } ∷ []

crawl_all-kept_example :
    (new : StatsRecord Fixed) × (lookup
        (codes "0xc")
        (crawl_all reals replies state.rows [] candidates).0
      ≡ some new)
    × (kept_of new ≡ (some (pos 30_000), 4, 70))
unfolding lookup bytes_beq
crawl_all-kept_example =
    crawl_all-kept reals candidates replies state.rows [] (codes "0xc") row refl

abbrev stats : List (GoString × Stats Fixed)
stats =
    (
      codes "0xc",
      record {
        win_rate = some (pos 0);
        resolved_markets = 0;
        realized_pnl = some (pos 0);
        portfolio_usd = some (pos 0);
        roi = some (pos 0);
        shrunk_roi = some (pos 0);
        fresh = true;
        avg_clv = some (pos 0);
        clv_n = 0;
      },
    )
    ∷ []

lookup-clear_stale_run : lookup (codes "0xc") (clear_stale (λ w. true) [] stats state.rows) ≡ (
    if listed (codes "0xc") stats && (not (returned {F = Fixed} (codes "0xc") []) && true)
    then cleared (lookup (codes "0xc") state.rows)
    else lookup (codes "0xc") state.rows)
lookup-clear_stale_run = lookup-clear_stale (λ w. true) [] stats state.rows (codes "0xc")
