-- ===== src/Strategy/Book/Tests.antt =====
-- A book of three asks, the last one outside the band.
use lobster_roll.Prelude.{◌≡◌, refl, [], ◌∷◌, some, pos}
use lobster_roll.Float.{
  Fixed, fixed_float, Fixed-IsOrdered, add_fixed, mul_fixed, div_fixed, ◌⊕◌, nought,
}
use lobster_roll.Strategy.Book.{
  Level, Book, buy_depth_usd, depth_of, depth_from, mid, mid_of, ask_before,
}
use lobster_roll.Strategy.Book.Depth.{notional, buy_depth_usd-notional}

abbrev bid : Level Fixed
bid = record { price = some (pos 480_000); size = some (pos 100_000_000) }

abbrev best : Level Fixed
best = record { price = some (pos 520_000); size = some (pos 100_000_000) }

abbrev next : Level Fixed
next = record { price = some (pos 530_000); size = some (pos 100_000_000) }

abbrev far : Level Fixed
far = record { price = some (pos 600_000); size = some (pos 100_000_000) }

abbrev example : Book Fixed
example = record { bids = bid ∷ []; asks = best ∷ next ∷ far ∷ [] }

depth_run : buy_depth_usd example (some (pos 20_000)) ≡ some (pos 105_000_000)
unfolding buy_depth_usd depth_of depth_from add_fixed mul_fixed
depth_run = refl

mid_run : mid example ≡ some (some (pos 500_000))
unfolding mid mid_of add_fixed div_fixed
mid_run = refl

buy_depth_usd-notional_run :
    buy_depth_usd example (some (pos 20_000))
    ≡ notional (some (pos 520_000) ⊕ some (pos 20_000)) nought (best ∷ next ∷ far ∷ [])
unfolding ask_before
buy_depth_usd-notional_run =
    buy_depth_usd-notional Fixed-IsOrdered (bid ∷ []) best (next ∷ far ∷ []) (some (pos 20_000))
      (refl, (refl, (refl, tt))) ((refl, (refl, tt)), ((refl, tt), (tt, tt)))
