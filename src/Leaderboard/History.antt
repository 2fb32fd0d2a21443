-- ===== src/Leaderboard/History.antt =====
-- services/leaderboard/internal/stats: a wallet's consistency from its activity. The map of markets is
-- an association list; between markets with the same last activity Go's order is one of several.
pub mod Markets
pub mod Totals
pub mod Tests
use lobster_roll.Prelude.{
  ℕ, ◌+◌, Bool, true, false, List, [], ◌∷◌, ◌++◌, Option, none, some, GoString, codes, ◌≟◌,
  bytes_eq, ltb, length, lookup, insert, sort_by, if◌then◌else◌, ◌&&◌,
}
use lobster_roll.Float.{Float, ◌<?◌, ◌≤?◌, ◌⊕◌, ◌⊖◌, ◌⊗◌, ◌⊘◌, nought}

-- dataapi.Activity; timestamps are not negative.
pub record Activity {ℓ} (F : Type ℓ) : Type ℓ where
  pub kind : GoString
  pub side : GoString
  pub size : F
  pub usdc_size : F
  pub condition_id : GoString
  pub timestamp : ℕ

pub record Stats {ℓ} (F : Type ℓ) : Type ℓ where
  pub win_rate : F
  pub resolved_markets : ℕ
  pub realized_pnl : F
  pub capital_deployed : F
  pub roi : F
  pub returns : List F
  pub traded_markets : ℕ

pub record Market {ℓ} (F : Type ℓ) : Type ℓ where
  pub net : F
  pub cost : F
  pub redeemed : Bool
  pub bought_shares : F
  pub net_shares : F
  pub last_ts : ℕ

module _ {ℓ} {F : Type ℓ} ⦃d : Float F⦄ where
  pub closed_share_eps : F
  closed_share_eps = d.lit 1 1_000

  -- math.Abs, which keeps a NaN.
  unfoldable pub abs : F → F
  abs x = if x <? nought then d.neg x else x

  unfoldable pub resolved : Market F → Bool
  unfolding closed_share_eps abs
  resolved m =
      if m.redeemed
      then true
      else nought <? m.bought_shares && abs m.net_shares ≤? m.bought_shares ⊗ closed_share_eps

  unfoldable pub no_activity : Market F
  no_activity = record {
    net = nought;
    cost = nought;
    redeemed = false;
    bought_shares = nought;
    net_shares = nought;
    last_ts = 0;
  }

  unfoldable pub stamp : Market F → ℕ → Market F
  stamp m at = if ltb m.last_ts at then record m { last_ts = at } else m

  unfoldable pub trade : Market F → Activity F → Market F
  trade m a =
      if a.side ≟ codes "BUY"
      then record m {
        net = m.net ⊖ a.usdc_size;
        cost = m.cost ⊕ a.usdc_size;
        bought_shares = m.bought_shares ⊕ a.size;
        net_shares = m.net_shares ⊕ a.size;
      }
      else if a.side ≟ codes "SELL"
      then record m { net = m.net ⊕ a.usdc_size; net_shares = m.net_shares ⊖ a.size }
      else m

  unfoldable pub book : Market F → Activity F → Market F
  unfolding trade
  book m a =
      if a.kind ≟ codes "TRADE"
      then trade m a
      else if a.kind ≟ codes "REDEEM"
      then record m { net = m.net ⊕ a.usdc_size; redeemed = true }
      else if a.kind ≟ codes "MERGE"
      then record m { net = m.net ⊕ a.usdc_size }
      else if a.kind ≟ codes "SPLIT"
      then record m { net = m.net ⊖ a.usdc_size; cost = m.cost ⊕ a.usdc_size }
      else m

  unfoldable pub or_new : Option (Market F) → Market F
  unfolding no_activity
  or_new none = no_activity
  or_new (some m) = m

  -- One round of the loop over the activity.
  unfoldable pub enter : List (GoString × Market F) → Activity F → List (GoString × Market F)
  unfolding or_new stamp book
  enter markets a =
      insert a.condition_id (book (stamp (or_new (lookup a.condition_id markets)) a.timestamp) a)
        markets

  unfoldable pub enter_all :
      List (GoString × Market F) → List (Activity F) → List (GoString × Market F)
  unfolding enter
  enter_all markets [] = markets
  enter_all markets (a ∷ acts) = enter_all (enter markets a) acts

  unfoldable pub resolved_of : List (GoString × Market F) → List (Market F)
  unfolding resolved
  resolved_of [] = []
  resolved_of ((id, m) ∷ rest) =
      let others = resolved_of rest in if resolved m then m ∷ others else others

  unfoldable pub older : Market F → Market F → Bool
  older m n = ltb m.last_ts n.last_ts

  -- One round of the loop over the resolved markets, with the wins.
  unfoldable pub tally : Stats F × ℕ → Market F → Stats F × ℕ
  tally (s, wins) m =
      let won = if nought <? m.net then wins + 1 else wins in
      let counted = record s { resolved_markets = s.resolved_markets + 1 } in
      if nought <? m.cost
      then (
        record counted {
          realized_pnl = s.realized_pnl ⊕ m.net;
          capital_deployed = s.capital_deployed ⊕ m.cost;
          returns = s.returns ++ m.net ⊘ m.cost ∷ [];
        },
        won,
      )
      else (counted, won)

  unfoldable pub tally_all : Stats F × ℕ → List (Market F) → Stats F × ℕ
  unfolding tally
  tally_all t [] = t
  tally_all t (m ∷ ms) = tally_all (tally t m) ms

  unfoldable pub ratios : Stats F × ℕ → Stats F
  ratios (s, wins) = record s {
    win_rate =
        if ltb 0 s.resolved_markets then d.of_ℕ wins ⊘ d.of_ℕ s.resolved_markets else s.win_rate;
    roi = if nought <? s.capital_deployed then s.realized_pnl ⊘ s.capital_deployed else s.roi;
  }

  unfoldable pub no_stats : ℕ → Stats F
  no_stats traded = record {
    win_rate = nought;
    resolved_markets = 0;
    realized_pnl = nought;
    capital_deployed = nought;
    roi = nought;
    returns = [];
    traded_markets = traded;
  }

  unfoldable pub compute : List (Activity F) → Stats F
  unfolding enter_all resolved_of older tally_all ratios no_stats
  compute acts =
      let markets = enter_all [] acts in
      ratios (tally_all (no_stats (length markets), 0) (sort_by older (resolved_of markets)))
