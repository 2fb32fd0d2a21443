-- ===== src/Leaderboard/Syncer/Crawl.antt =====
-- The crawl of the candidates, in services/leaderboard/internal/syncer/stats.go.
use lobster_roll.Prelude.{
  ℕ, Bool, List, [], ◌∷◌, Option, none, some, GoString, bytes_eq, insert, if◌then◌else◌,
}
use lobster_roll.Float.{Float, nought}
use lobster_roll.Leaderboard.Selection.{Candidate, Stats}
use lobster_roll.Leaderboard.Watchset.{Delta, Store}
use lobster_roll.Leaderboard.Records.{StatsRecord, upsert_stats}
use lobster_roll.Leaderboard.History.{Activity, compute}
use lobster_roll.Leaderboard.Skill.{Reals, fresh}

-- WalletCLV of pricewatch's answer.
pub record Clv {ℓ} (F : Type ℓ) : Type ℓ where
  pub wallet : GoString
  pub avg_clv : F
  pub n : ℕ

-- What the outside answers during a refresh; `now` is the clock's.
pub record Answers {ℓ} (F : Type ℓ) : Type ℓ where
  pub now : ℕ
  pub activity : GoString → Option (List (Activity F))
  pub portfolio : GoString → Option F
  pub upserted : GoString → Bool
  pub score_written : GoString → Bool
  pub clv_on : Bool
  pub clv : Option (List (Clv F))
  pub clv_written : GoString → Bool
  pub opened : Bool
  pub written : Bool
  pub synced : Bool

-- The database, and the broadcasts, the newest first.
pub record State {ℓ} (F : Type ℓ) : Type ℓ where
  pub store : Store
  pub rows : List (GoString × StatsRecord F)
  pub sent : List Delta

module _ {ℓ} {F : Type ℓ} ⦃d : Float F⦄ where
  -- A failed fetch of the value counts as 0.
  unfoldable pub value_or_nought : Option F → F
  value_or_nought none = nought
  value_or_nought (some v) = v

module _ {ℓ} {F : Type ℓ} ⦃d : Float F⦄ (reals : Reals F) where
  unfoldable pub record_of : Answers F → Candidate F → List (Activity F) → StatsRecord F
  unfolding value_or_nought
  record_of a c acts =
      let st = compute acts in
      record {
        wallet = c.wallet;
        win_rate = st.win_rate;
        resolved_markets = st.resolved_markets;
        realized_pnl = st.realized_pnl;
        roi = st.roi;
        skill_score = 0;
        fresh = fresh reals st.returns;
        avg_clv = nought;
        clv_n = 0;
        profit_30d = c.profit_30d;
        portfolio_value = value_or_nought (a.portfolio c.wallet);
        traded_markets = st.traded_markets;
        computed_unix = a.now;
      }

  unfoldable pub stats_of : StatsRecord F → Stats F
  stats_of r = record {
    win_rate = r.win_rate;
    resolved_markets = r.resolved_markets;
    realized_pnl = r.realized_pnl;
    portfolio_usd = r.portfolio_value;
    roi = r.roi;
    shrunk_roi = nought;
    fresh = r.fresh;
    avg_clv = nought;
    clv_n = 0;
  }

  -- The crawl of one candidate, and of the candidates after it; none when a row is not written.
  unfoldable pub crawl_all :
      Answers F
      → List (GoString × StatsRecord F)
      → List (GoString × Stats F)
      → List (Candidate F)
      → List (GoString × StatsRecord F) × Option (List (GoString × Stats F))
  unfolding record_of stats_of
  crawl_all a rows stats [] = (rows, some stats)
  crawl_all a rows stats (c ∷ cs) = elim (a.activity c.wallet) [
    | none ↦ crawl_all a rows stats cs
    | some acts ↦
        let r = record_of a c acts in
        let rest = crawl_all a (upsert_stats r rows) (insert c.wallet (stats_of r) stats) cs in
        if a.upserted c.wallet then rest else (rows, none)
  ]
