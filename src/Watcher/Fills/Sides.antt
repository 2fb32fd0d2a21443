-- ===== src/Watcher/Fills/Sides.antt =====
-- The two sides of one event.
use lobster_roll.Prelude.{
  ℕ, ◌≡◌, ◌≢◌, ◌↔◌, ◌⊎◌, not, List, none, some, bytes_eq, ◌==◌, beq_refl, beq_of_eq, eq_of_beq,
  arith, if◌then◌else◌,
}
use lobster_roll.Watcher.Decode.{Eth, OrderFilled, side_buy}
use lobster_roll.Watcher.Fills.{Fill, fill_for}

module _ (eth : Eth) where
  -- A wallet has a fill exactly if it is the maker or the taker.
  pub fill_for_iff :
      (o : OrderFilled) (wallet : List ℕ)
      → (fill_for eth o wallet ≢ none) ↔ ((wallet ≡ o.maker) ⊎ (wallet ≡ o.taker))
  unfolding fill_for
  fill_for_iff o wallet = (
    λ h. ground (arith, eq_of_beq wallet o.maker, eq_of_beq wallet o.taker),
    λ h. ground (arith, beq_of_eq wallet o.maker, beq_of_eq wallet o.taker),
  )

  -- If the maker and the taker of an event differ and both have a fill, then the fills have the same
  -- token, position and amounts and opposite sides; the maker buys exactly if the event's side is
  -- buy; and the USDC is the maker's amount if the maker buys and the taker's if not, the shares
  -- being the other amount.
  pub fill_for-sides :
      (o : OrderFilled) {f g : Fill}
      → o.maker ≢ o.taker
      → fill_for eth o o.maker ≡ some f
      → fill_for eth o o.taker ≡ some g
      → (f.buy ≡ (o.side == side_buy))
        × (g.buy ≡ not f.buy)
        × (f.usdc ≡ g.usdc)
        × (f.shares ≡ g.shares)
        × (f.usdc ≡ (if f.buy then o.maker_amount else o.taker_amount))
        × (f.shares ≡ (if f.buy then o.taker_amount else o.maker_amount))
        × (f.token_id ≡ g.token_id)
        × (f.log_index ≡ g.log_index)
  unfolding fill_for
  fill_for-sides o ne e h =
      ground (arith, beq_refl o.maker, beq_refl o.taker, eq_of_beq o.maker o.taker)
