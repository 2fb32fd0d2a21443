-- ===== src/Strategy/Handler.antt =====
-- services/strategy/internal/handler and internal/sizer: one detected trade, vetted and proposed. What
-- the market data source, the leaderboard, the order book and the bus answer are arguments.
pub mod Once
mod Tests
use lobster_roll.Prelude.{
  ℕ, Bool, true, false, List, [], ◌∷◌, Option, none, some, GoString, ◌≟◌, bytes_eq, to_lower, has,
  if◌then◌else◌, ◌||◌,
}
use lobster_roll.Float.{Float, nought}
use lobster_roll.Bus.{TradeDetected, OrderProposal}
use lobster_roll.Dedup.GenSet.{GenSet, add}
use lobster_roll.Sizing.{Inputs, Config, size, sized, Reason, Decision}
use lobster_roll.Strategy.Book.{Book, mid, half_spread, buy_depth_usd}
use lobster_roll.Strategy.Decide.{
  Numerals, Policy, Market, Outcome, skip, propose, proposal_id, decide,
}

-- marketdata.Data.
pub record MarketData {ℓ} (F : Type ℓ) : Type ℓ where
  pub current_price : F
  pub liquidity_usd : F
  pub condition_id : GoString
  pub active : Bool

-- The fields of WalletStats that are read.
pub record WalletStats {ℓ} (F : Type ℓ) : Type ℓ where
  pub found : Bool
  pub avg_clv : F
  pub clv_n : ℕ
  pub roi : F
  pub fresh : Bool

-- What Fetch answers: an error, no market, or its data.
pub data Fetched {ℓ} (F : Type ℓ) : Type ℓ where
  fetch_failed not_found : Fetched F
  fetched : MarketData F → Fetched F

-- What Sizer.Size gives: no stake for a missing input, or the engine's decision.
pub data Stake {ℓ} (F : Type ℓ) : Type ℓ where
  stats_failed no_leader_stats book_failed no_book_mid : Stake F
  engine : Decision F → Stake F

pub record Handler {ℓ} (F : Type ℓ) : Type ℓ where
  pub seen : GenSet GoString
  pub published : List (OrderProposal F)

pub is_empty : List GoString → Bool
is_empty [] = true
is_empty (x ∷ xs) = false

module _ {ℓ} {F : Type ℓ} ⦃d : Float F⦄ where
  pub size_book : Config F → F → F → WalletStats F → Book F → Option F → Option F → Stake F
  size_book cfg bankroll band st b none half = no_book_mid
  size_book cfg bankroll band st b (some price) half = engine (
      size
        (record {
          price = price;
          half_spread = elim half [ none ↦ nought | some h ↦ h ];
          fee_rate = nought;
          slippage = nought;
          avg_clv = st.avg_clv;
          clv_n = st.clv_n;
          shrunk_roi = st.roi;
          fresh = st.fresh;
          bankroll = bankroll;
          exposure = nought;
          drawdown_frac = nought;
          depth_cap_usd = buy_depth_usd b band;
        })
        cfg)

  -- `Sizer.Size`; none stands for an error.
  pub stake_for : Config F → F → F → Option (WalletStats F) → Option (Book F) → Stake F
  unfolding size_book
  stake_for cfg bankroll band none b = stats_failed
  stake_for cfg bankroll band (some st) none = if st.found then book_failed else no_leader_stats
  stake_for cfg bankroll band (some st) (some b) =
      if st.found then size_book cfg bankroll band st b (mid b) (half_spread b) else no_leader_stats

  pub publish : Handler F → Bool → OrderProposal F → Handler F
  publish h accepted o = if accepted then record h { published = o ∷ h.published } else h

  pub sized_by : Handler F → Bool → OrderProposal F → Reason → F → Handler F
  unfolding publish
  sized_by h accepted o sized stake = publish h accepted (record o { size_usd = stake })
  sized_by h accepted o _ stake = h

  -- none: the sizing engine is off.
  pub with_stake : Handler F → Bool → OrderProposal F → Option (Stake F) → Handler F
  unfolding publish sized_by
  with_stake h accepted o none = publish h accepted o
  with_stake h accepted o (some (engine v)) = sized_by h accepted o v.reason v.stake
  with_stake h accepted o (some _) = h

  pub proposed : Handler F → Bool → Option (Stake F) → Outcome F → Handler F
  unfolding with_stake
  proposed h accepted stake (skip r) = h
  proposed h accepted stake (propose o) = with_stake h accepted o stake

  module _ (numerals : Numerals F) (policy : Policy F) (allowlist : List GoString) where
    pub market_of : MarketData F → Market F
    unfolding is_empty
    market_of m = record {
      current_price = m.current_price;
      liquidity_usd = m.liquidity_usd;
      condition_id = m.condition_id;
      active = m.active;
      allowed = is_empty allowlist || has (to_lower m.condition_id) allowlist;
    }

    -- The trade is new: market data, policy, stake and bus.
    pub vet_trade : Handler F → TradeDetected → Fetched F → Option (Stake F) → Bool → Handler F
    unfolding proposed market_of
    vet_trade h td (fetched m) stake accepted =
        proposed h accepted stake (decide numerals td (market_of m) policy)
    vet_trade h td _ stake accepted = h

    pub after_fetch : Handler F → TradeDetected → Fetched F → Option (Stake F) → Bool → Handler F
    unfolding vet_trade
    after_fetch h td fetch_failed stake accepted = h
    after_fetch h td answer stake accepted =
        let (seen, added) = add h.seen (proposal_id td) in
        if added
        then vet_trade (record h { seen = seen }) td answer stake accepted
        else record h { seen = seen }

    -- `Handle`.
    pub handle : Handler F → TradeDetected → Fetched F → Option (Stake F) → Bool → Handler F
    unfolding after_fetch
    handle h td answer stake accepted =
        if td.token_id ≟ [] then h else after_fetch h td answer stake accepted
