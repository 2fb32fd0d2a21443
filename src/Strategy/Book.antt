-- ===== src/Strategy/Book.antt =====
-- services/strategy/internal/book: midprice, half spread and depth of an order book, and the reading of
-- its levels. The HTTP request and the JSON decoding are left out.
pub mod Depth
mod Tests
use lobster_roll.Prelude.{Bool, List, [], ◌∷◌, Option, none, some, GoString, sort_by, if◌then◌else◌}
use lobster_roll.Float.{Float, ◌<?◌, ◌⊕◌, ◌⊖◌, ◌⊗◌, ◌⊘◌, nought}

pub record Level {ℓ} (F : Type ℓ) : Type ℓ where
  pub price : F
  pub size : F

pub record Book {ℓ} (F : Type ℓ) : Type ℓ where
  pub bids : List (Level F)
  pub asks : List (Level F)

pub record JsonLevel : Type 0 where
  pub price : GoString
  pub size : GoString

module _ {ℓ} {F : Type ℓ} ⦃d : Float F⦄ where
  pub mid_of : List (Level F) → List (Level F) → Option F
  mid_of (bid ∷ bids) (ask ∷ asks) = some ((bid.price ⊕ ask.price) ⊘ d.of_ℕ 2)
  mid_of _ _ = none

  pub mid : Book F → Option F
  unfolding mid_of
  mid b = mid_of b.bids b.asks

  pub half_spread_of : List (Level F) → List (Level F) → Option F
  half_spread_of (bid ∷ bids) (ask ∷ asks) = some ((ask.price ⊖ bid.price) ⊘ d.of_ℕ 2)
  half_spread_of _ _ = none

  pub half_spread : Book F → Option F
  unfolding half_spread_of
  half_spread b = half_spread_of b.bids b.asks

  -- The loop: the sum so far, up to the first level above the limit.
  pub depth_from : F → F → List (Level F) → F
  depth_from limit usd [] = usd
  depth_from limit usd (lvl ∷ rest) =
      let more = depth_from limit (usd ⊕ lvl.price ⊗ lvl.size) rest in
      if limit <? lvl.price then usd else more

  pub depth_of : F → List (Level F) → F
  unfolding depth_from
  depth_of slippage_band [] = nought
  depth_of slippage_band (best ∷ rest) =
      depth_from (best.price ⊕ slippage_band) nought (best ∷ rest)

  -- `BuyDepthUSD`.
  pub buy_depth_usd : Book F → F → F
  unfolding depth_of
  buy_depth_usd b slippage_band = depth_of slippage_band b.asks

  pub level_of : Option F → Option F → Option (Level F)
  level_of none size = none
  level_of (some p) none = none
  level_of (some p) (some s) = some (record { price = p; size = s })

  pub push_level : Option (Level F) → Option (List (Level F)) → Option (List (Level F))
  push_level none rest = none
  push_level (some l) none = none
  push_level (some l) (some ls) = some (l ∷ ls)

  pub parse_levels : (GoString → Option F) → List JsonLevel → Option (List (Level F))
  unfolding level_of push_level
  parse_levels parse_float [] = some []
  parse_levels parse_float (l ∷ ls) =
      push_level (level_of (parse_float l.price) (parse_float l.size)) (parse_levels parse_float ls)

  pub bid_before : Level F → Level F → Bool
  bid_before a b = b.price <? a.price

  pub ask_before : Level F → Level F → Bool
  ask_before a b = a.price <? b.price

  pub book_of : Option (List (Level F)) → Option (List (Level F)) → Option (Book F)
  unfolding bid_before ask_before
  book_of none asks = none
  book_of (some bids) none = none
  book_of (some bids) (some asks) =
      some (record { bids = sort_by bid_before bids; asks = sort_by ask_before asks })

  -- `Client.Book` after the response is decoded.
  pub read_book : (GoString → Option F) → List JsonLevel → List JsonLevel → Option (Book F)
  unfolding book_of parse_levels
  read_book parse_float bids asks =
      book_of (parse_levels parse_float bids) (parse_levels parse_float asks)
