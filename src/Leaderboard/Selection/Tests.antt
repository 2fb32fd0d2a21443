-- ===== src/Leaderboard/Selection/Tests.antt =====
-- Three candidates: a good one, a better one, and one with too few markets.
use lobster_roll.Prelude.{
  bytes_eq, ℕ, ◌≤◌, ◌≡◌, ◌⊎◌, refl, true, false, List, [], ◌∷◌, some, pos, negsuc, GoString, codes,
  has, length, lookup, bytes_beq, bytes_lt, sort_by, insert_by,
}
use lobster_roll.Float.{Fixed, fixed_float, add_fixed, mul_fixed, div_fixed}
use lobster_roll.Leaderboard.Selection.{
  Candidate, Stats, Criteria, select, pool_of, add_scored, meets, rank_key, ranks_before, truncated,
  wallets,
}
use lobster_roll.Leaderboard.Selection.Eligible.{eligible, select-eligible}

abbrev stats_of : ℕ → ℕ → Stats Fixed
stats_of resolved shrunk = record {
  win_rate = some (pos 600_000);
  resolved_markets = resolved;
  realized_pnl = some (pos 1_000_000_000);
  portfolio_usd = some (pos 1_000_000_000);
  roi = some (pos shrunk);
  shrunk_roi = some (pos shrunk);
  fresh = true;
  avg_clv = some (pos 0);
  clv_n = 0;
}

abbrev criteria : Criteria Fixed
criteria = record {
  min_resolved = 20;
  min_win_rate = some (pos 550_000);
  min_portfolio_usd = some (pos 0);
  min_realized_pnl = some (pos 0);
  require_fresh = true;
}

abbrev candidate : GoString → Candidate Fixed
candidate w = record { wallet = w; profit_30d = some (pos 0) }

abbrev candidates : List (Candidate Fixed)
candidates = candidate (codes "a") ∷ candidate (codes "b") ∷ candidate (codes "c") ∷ []

abbrev stats : List (GoString × Stats Fixed)
stats =
    (codes "a", stats_of 30 100_000)
    ∷ (codes "b", stats_of 30 200_000)
    ∷ (codes "c", stats_of 5 900_000)
    ∷ []

ranked_run : select candidates stats criteria (pos 2) ≡ codes "b" ∷ codes "a" ∷ []
unfolding select pool_of add_scored meets rank_key ranks_before truncated wallets lookup bytes_beq
    bytes_lt sort_by insert_by add_fixed mul_fixed div_fixed
ranked_run = refl

select-eligible_example :
    (length (select candidates stats criteria (pos 1)) ≤ 1)
    × ((has (codes "c") (select candidates stats criteria (pos 1)) ≡ false)
        ⊎ (eligible stats criteria (codes "c") candidates ≡ true))
    × (has (codes "c") (select candidates stats criteria (negsuc 0))
        ≡ eligible stats criteria (codes "c") candidates)
select-eligible_example = select-eligible candidates stats criteria (codes "c") 1 0
