-- ===== src/Strategy/Decide/Gates.antt =====
-- What a proposal keeps to.
use lobster_roll.Prelude.{◌≡◌, ◌⊎◌, true, false, some, GoString, codes, bytes_eq, ◌&&◌}
use lobster_roll.Float.{Float, IsOrdered, ◌<?◌, ◌≤?◌, ◌⊕◌, ◌⊖◌, ◌⊗◌, ◌⊘◌, nought}
use lobster_roll.Bus.{TradeDetected, OrderProposal}
use lobster_roll.Strategy.Decide.{Numerals, Policy, Market, proposal_id, size_usd, limit_price}

module _ {ℓ} {F : Type ℓ} ⦃d : Float F⦄ (numerals : Numerals F) where
  open numerals use {parse_float, format_float, round}

  -- A price to three decimals.
  abbrev pub to_mills : F → F
  to_mills x = round (x ⊗ d.of_ℕ 1000) ⊘ d.of_ℕ 1000

  -- A buy goes up from the whale's price by the slippage at most, and the market has not gone further
  -- than that and a small tolerance; a sell goes down.
  abbrev pub Guarded : GoString → F → F → F → F → Type ℓ
  Guarded side price current slippage limit =
      ((side ≡ codes "buy")
        × (limit ≡ to_mills (price ⊕ slippage))
        × ((current ≤? price ⊕ slippage ⊕ d.lit 1 1_000_000_000) ≡ true))
      ⊎ ((side ≡ codes "sell")
          × (limit ≡ to_mills (price ⊖ slippage))
          × ((price ⊖ slippage ⊖ d.lit 1 1_000_000_000 ≤? current) ≡ true))

  module _ (order : IsOrdered F) where
    open order use {lt-le, lt-not-le}

    -- What a proposal keeps to: a positive whale price and size, a known side with the limit and the
    -- market's price on the right side of the whale's, an active and allowed market with a live price
    -- and enough liquidity, a size not below the minimum nor above a positive maximum, a limit that is
    -- not outside 0.001 and 0.999, and the id, token and side of its trade.
    abbrev pub Vetted : TradeDetected → Market F → Policy F → OrderProposal F → F → F → F → Type ℓ
    Vetted t m p o price size limit =
        (parse_float t.price ≡ some price)
        × (parse_float t.size ≡ some size)
        × ((price ≤? nought) ≡ false)
        × ((size ≤? nought) ≡ false)
        × Guarded t.side price m.current_price p.max_slippage limit
        × (m.active ≡ true)
        × (m.allowed ≡ true)
        × ((m.liquidity_usd <? p.min_liquidity_usd) ≡ false)
        × ((m.current_price ≤? nought) ≡ false)
        × ((o.size_usd <? p.min_size_usd) ≡ false)
        × ((nought <? p.max_size_usd && p.max_size_usd <? o.size_usd) ≡ false)
        × ((limit <? d.lit 1 1000) ≡ false)
        × ((d.lit 999 1000 <? limit) ≡ false)
        × (o.limit_price ≡ format_float limit)
        × (o.id ≡ proposal_id t)
        × (o.token_id ≡ t.token_id)
        × (o.side ≡ t.side)
