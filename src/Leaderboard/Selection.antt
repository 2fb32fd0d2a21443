-- ===== src/Leaderboard/Selection.antt =====
-- services/leaderboard/internal/selection: the gates, the rank key and the choice of the first wallets.
-- Sample counts are natural numbers; the map of statistics is an association list.
pub mod Eligible
mod Tests
use lobster_roll.Prelude.{
  ℕ, Bool, true, false, not, List, [], ◌∷◌, Option, none, some, GoString, ◌≟◌, bytes_eq, bytes_lt,
  ltb, leb, length, take, lookup, map, sort_by, ℤ, pos, negsuc, if◌then◌else◌, ◌&&◌, ◌||◌,
}
use lobster_roll.Float.{Float, ◌<?◌, ◌≤?◌, ◌⊕◌, ◌⊗◌, ◌⊘◌, one, float_eq}

pub record Candidate {ℓ} (F : Type ℓ) : Type ℓ where
  pub wallet : GoString
  pub profit_30d : F

pub record Stats {ℓ} (F : Type ℓ) : Type ℓ where
  pub win_rate : F
  pub resolved_markets : ℕ
  pub realized_pnl : F
  pub portfolio_usd : F
  pub roi : F
  pub shrunk_roi : F
  pub fresh : Bool
  pub avg_clv : F
  pub clv_n : ℕ

pub record Criteria {ℓ} (F : Type ℓ) : Type ℓ where
  pub min_resolved : ℕ
  pub min_win_rate : F
  pub min_portfolio_usd : F
  pub min_realized_pnl : F
  pub require_fresh : Bool

pub record Scored {ℓ} (F : Type ℓ) : Type ℓ where
  pub wallet : GoString
  pub score : F
  pub win_rate : F

abbrev pub clv_blend_full : ℕ
clv_blend_full = 50

module _ {ℓ} {F : Type ℓ} ⦃d : Float F⦄ where
  pub rank_key : Stats F → F
  rank_key s =
      let ratio = d.of_ℕ s.clv_n ⊘ d.of_ℕ clv_blend_full in
      let conf = if one <? ratio then one else ratio in s.shrunk_roi ⊕ one ⊗ conf ⊗ s.avg_clv

  pub meets : Criteria F → Stats F → Bool
  meets c s =
      leb c.min_resolved s.resolved_markets
      && c.min_win_rate ≤? s.win_rate
      && c.min_portfolio_usd ≤? s.portfolio_usd
      && c.min_realized_pnl ≤? s.realized_pnl
      && (not c.require_fresh || s.fresh)

  pub ranks_before : Scored F → Scored F → Bool
  ranks_before a b =
      if not (float_eq a.score b.score)
      then b.score <? a.score
      else if not (float_eq a.win_rate b.win_rate)
      then b.win_rate <? a.win_rate
      else bytes_lt a.wallet b.wallet

  pub add_scored : Criteria F → GoString → Option (Stats F) → List (Scored F) → List (Scored F)
  unfolding meets rank_key
  add_scored crit wallet none pool = pool
  add_scored crit wallet (some st) pool =
      if meets crit st
      then record { wallet = wallet; score = rank_key st; win_rate = st.win_rate } ∷ pool
      else pool

  pub pool_of : List (GoString × Stats F) → Criteria F → List (Candidate F) → List (Scored F)
  unfolding add_scored
  pool_of stats crit [] = []
  pool_of stats crit (c ∷ cs) =
      add_scored crit c.wallet (lookup c.wallet stats) (pool_of stats crit cs)

  -- `topN < 0` keeps everything.
  pub truncated : ℤ → List (Scored F) → List (Scored F)
  truncated (pos n) pool = if ltb n (length pool) then take n pool else pool
  truncated (negsuc n) pool = pool

  pub wallets : List (Scored F) → List GoString
  wallets [] = []
  wallets (s ∷ ss) = s.wallet ∷ wallets ss

  -- `Select`.
  pub select : List (Candidate F) → List (GoString × Stats F) → Criteria F → ℤ → List GoString
  unfolding pool_of ranks_before truncated wallets
  select candidates stats crit top_n =
      wallets (truncated top_n (sort_by ranks_before (pool_of stats crit candidates)))
