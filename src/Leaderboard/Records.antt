-- ===== src/Leaderboard/Records.antt =====
-- services/leaderboard/internal/store/stats.go: the table of the wallets' statistics, by wallet. A
-- statement that fails is the caller's case.
mod Tests
use lobster_roll.Prelude.{
  ℕ, Bool, true, false, List, [], ◌∷◌, Option, none, some, GoString, bytes_eq, ◌==◌, not, lookup,
  insert,
}
use lobster_roll.Float.{Float, nought}

-- StatsRecord.
pub record StatsRecord {ℓ} (F : Type ℓ) : Type ℓ where
  pub wallet : GoString
  pub win_rate : F
  pub resolved_markets : ℕ
  pub realized_pnl : F
  pub roi : F
  pub skill_score : ℕ
  pub fresh : Bool
  pub avg_clv : F
  pub clv_n : ℕ
  pub profit_30d : F
  pub portfolio_value : F
  pub traded_markets : ℕ
  pub computed_unix : ℕ

module _ {ℓ} {F : Type ℓ} where
  -- UPDATE … SET skill_score.
  unfoldable pub rescored :
      GoString
      → ℕ
      → Option (StatsRecord F)
      → List (GoString × StatsRecord F)
      → List (GoString × StatsRecord F)
  rescored wallet score none rows = rows
  rescored wallet score (some r) rows = insert wallet (record r { skill_score = score }) rows

  unfoldable pub set_skill_score :
      GoString → ℕ → List (GoString × StatsRecord F) → List (GoString × StatsRecord F)
  unfolding rescored
  set_skill_score wallet score rows = rescored wallet score (lookup wallet rows) rows

  -- UPDATE … SET avg_clv, clv_n.
  unfoldable pub revalued :
      GoString
      → F
      → ℕ
      → Option (StatsRecord F)
      → List (GoString × StatsRecord F)
      → List (GoString × StatsRecord F)
  revalued wallet avg n none rows = rows
  revalued wallet avg n (some r) rows = insert wallet (record r { avg_clv = avg; clv_n = n }) rows

  unfoldable pub set_wallet_clv :
      GoString → F → ℕ → List (GoString × StatsRecord F) → List (GoString × StatsRecord F)
  unfolding revalued
  set_wallet_clv wallet avg n rows = revalued wallet avg n (lookup wallet rows) rows

  -- `GetStats`.
  unfoldable pub get_stats : GoString → List (GoString × StatsRecord F) → Option (StatsRecord F)
  get_stats wallet rows = lookup wallet rows

module _ {ℓ} {F : Type ℓ} ⦃d : Float F⦄ where
  -- The columns that an upsert leaves alone, from the row that is there or the schema's defaults.
  unfoldable pub with_kept : StatsRecord F → Option (StatsRecord F) → StatsRecord F
  with_kept r none = record r { skill_score = 0; avg_clv = nought; clv_n = 0 }
  with_kept r (some old) = record r {
    skill_score = old.skill_score;
    avg_clv = old.avg_clv;
    clv_n = old.clv_n;
  }

  unfoldable pub upsert_stats :
      StatsRecord F → List (GoString × StatsRecord F) → List (GoString × StatsRecord F)
  unfolding with_kept
  upsert_stats r rows = insert r.wallet (with_kept r (lookup r.wallet rows)) rows
