-- ===== src/Strategy/Book/Depth.antt =====
-- The depth of a sorted side.
use lobster_roll.Prelude.{
  ◌≡◌, refl, true, false, not, List, [], ◌∷◌, foldl, keep, All, IsSorted, arith,
}
use lobster_roll.Float.{Float, IsOrdered, IsNumber, ◌<?◌, ◌⊕◌, ◌⊗◌, nought}
use lobster_roll.Strategy.Book.{Level, depth_from, depth_of, buy_depth_usd, ask_before}

module _ {ℓ} {F : Type ℓ} ⦃d : Float F⦄ where
  -- The notional of the levels that are not above a limit.
  pub notional : F → F → List (Level F) → F
  notional limit usd asks =
      foldl (λ sum lvl. sum ⊕ lvl.price ⊗ lvl.size) usd
        (keep (λ lvl. not (limit <? lvl.price)) asks)

  module _ (order : IsOrdered F) where
    open order use {
      le_trans, lt-not-le, not_lt-le, not_le-lt, le-IsNumber_left, le-IsNumber_right, lt-le,
    }

    above :
        (limit p q : F)
        → IsNumber p
        → IsNumber q
        → (limit <? p) ≡ true
        → (q <? p) ≡ false
        → (limit <? q) ≡ true
    above limit p q n m h k = ground (
      arith,
      lt-le limit p,
      le-IsNumber_left limit p,
      not_lt-le q p,
      lt-not-le limit p,
      not_le-lt q limit,
      le_trans p q limit,
    )

    none_kept :
        (limit : F) (lvl : Level F) (asks : List (Level F))
        → (limit <? lvl.price) ≡ true
        → IsNumber lvl.price
        → All (λ a. ask_before a lvl ≡ false) asks
        → All (λ a. IsNumber a.price) asks
        → keep (λ a. not (limit <? a.price)) asks ≡ []
    unfolding ask_before keep
    none_kept limit lvl [] h n s m = refl
    none_kept limit lvl (a ∷ asks) h n (p, s) (k, m) =
        ground (arith, none_kept limit lvl asks h n s m, above limit lvl.price a.price n k h p)

    depth_from-notional :
        (limit usd : F) (asks : List (Level F))
        → All (λ a. IsNumber a.price) asks
        → IsSorted ask_before asks
        → depth_from limit usd asks ≡ notional limit usd asks
    unfolding depth_from notional keep
    depth_from-notional limit usd [] m s = refl
    depth_from-notional limit usd (a ∷ asks) (n, m) (p, s) = ground (
      arith,
      depth_from-notional limit (usd ⊕ a.price ⊗ a.size) asks m s,
      none_kept limit a asks,
      n,
      m,
      p,
    )

    -- For a book whose asks are sorted and have numbers for prices, the depth within a band is the
    -- notional of all the asks that are not above the best ask plus the band: stopping at the first
    -- level above it loses nothing.
    pub buy_depth_usd-notional :
        (bids : List (Level F)) (best : Level F) (rest : List (Level F)) (band : F)
        → All (λ a. IsNumber a.price) (best ∷ rest)
        → IsSorted ask_before (best ∷ rest)
        → buy_depth_usd (record { bids = bids; asks = best ∷ rest }) band
          ≡ notional (best.price ⊕ band) nought (best ∷ rest)
    unfolding buy_depth_usd depth_of
    buy_depth_usd-notional bids best rest band m s =
        depth_from-notional (best.price ⊕ band) nought (best ∷ rest) m s
