-- ===== src/Sizing/Caps.antt =====
-- What a stake of pkg/sizing keeps to: its gates, its caps and its minimum.
use lobster_roll.Prelude.{◌≡◌, true, false, if◌then◌else◌, arith}
use lobster_roll.Float.{Float, IsOrdered, IsRounded, IsNumber, ◌<?◌, ◌≤?◌, ◌⊗◌, nought, one}
use lobster_roll.Sizing.{
  Inputs, Config, sized, size, finish, capped_stake, kelly_stake, per_bet_cap, available, edge,
  edge_eff, skip,
}

module _ {ℓ} {F : Type ℓ} ⦃d : Float F⦄ where
  -- If `size` returns a stake with no reason to skip, then none of the gates held: the bankroll is
  -- not `<= 0`, the price neither `<= 0` nor `>= 1`, the leader is fresh, the full spread is not
  -- above the maximum, the drawdown is not at the stop, the edge is not `<= 0` and the edge after
  -- costs not at or below the buffer.
  pub size_gates :
      (i : Inputs F) (c : Config F)
      → (size i c).reason ≡ sized
      → ((i.bankroll ≤? nought) ≡ false)
        × ((i.price ≤? nought) ≡ false)
        × ((one ≤? i.price) ≡ false)
        × (i.fresh ≡ true)
        × ((c.max_spread <? d.of_ℕ 2 ⊗ i.half_spread) ≡ false)
        × ((c.dd_stop ≤? i.drawdown_frac) ≡ false)
        × ((edge i c ≤? nought) ≡ false)
        × ((edge_eff i c ≤? c.edge_buffer) ≡ false)
  unfolding size skip
  size_gates i c h = ground arith

  size-finish :
      (i : Inputs F) (c : Config F)
      → (size i c).reason ≡ sized
      → size i c ≡ finish i c (capped_stake i c (kelly_stake i c))
  unfolding size skip
  size-finish i c h = ground arith

  module _ (order : IsOrdered F) (rounding : IsRounded F) where
    open order use {le_trans, lt-le, not_lt-le, le-IsNumber_left, le-IsNumber_right}
    open rounding use {half-le}

    min-le :
        (cap x : F)
        → IsNumber cap
        → IsNumber x
        → let y = if cap <? x then cap else x in
          ((y ≤? cap) ≡ true) × ((y ≤? x) ≡ true) × IsNumber y
    min-le cap x n m = ground (arith, lt-le cap x, not_lt-le cap x n m)

    capped_stake-le :
        (i : Inputs F) (c : Config F) (raw : F)
        → IsNumber raw
        → (nought ≤? per_bet_cap i c) ≡ true
        → IsNumber i.depth_cap_usd
        → let stake = capped_stake i c raw in
          ((stake ≤? per_bet_cap i c) ≡ true)
          × ((if nought <? i.depth_cap_usd then stake ≤? i.depth_cap_usd else true) ≡ true)
    unfolding capped_stake
    capped_stake-le i c raw n p m =
        let cap = per_bet_cap i c in
        let depth = i.depth_cap_usd in
        let bet : F = if cap <? raw then cap else raw in
        let (b1, b2, b3) = min-le cap raw (le-IsNumber_right nought cap p) n in
        let (q1, q2, q3) = min-le depth bet m b3 in
        let deep : F = if nought <? depth then (if depth <? bet then depth else bet) else bet in
        let deep_cap : (deep ≤? cap) ≡ true = ground (arith, le_trans _ bet cap q2 b1) in
        ground (arith, half-le deep cap deep_cap p, half-le deep depth, lt-le nought depth)

    finish-le :
        (i : Inputs F) (c : Config F) (s : F)
        → (finish i c s).reason ≡ sized
        → IsNumber s
        → IsNumber (available i c)
        → let last = (finish i c s).stake in
          ((last ≤? s) ≡ true)
          × ((last ≤? available i c) ≡ true)
          × ((last <? c.min_stake_usd) ≡ false)
    unfolding finish skip
    finish-le i c s h n a = ground (arith, min-le (available i c) s a n)

    below :
        (x y depth : F)
        → (x ≤? y) ≡ true
        → (if nought <? depth then y ≤? depth else true) ≡ true
        → (if nought <? depth then x ≤? depth else true) ≡ true
    below x y depth h k = ground (arith, le_trans x y depth h)

    -- If `size` returns a stake, the Kelly stake and the available exposure are numbers, the per-bet
    -- cap is not negative, and the book depth is a number, then the stake is at most the per-bet
    -- cap, at most the depth of the book if that is positive, at most the exposure still available,
    -- and not below the minimum.
    pub size_caps :
        (i : Inputs F) (c : Config F)
        → (size i c).reason ≡ sized
        → IsNumber (kelly_stake i c)
        → (nought ≤? per_bet_cap i c) ≡ true
        → IsNumber i.depth_cap_usd
        → IsNumber (available i c)
        → let stake = (size i c).stake in
          ((stake ≤? per_bet_cap i c) ≡ true)
          × ((if nought <? i.depth_cap_usd then stake ≤? i.depth_cap_usd else true) ≡ true)
          × ((stake ≤? available i c) ≡ true)
          × ((stake <? c.min_stake_usd) ≡ false)
    size_caps i c h n p m a =
        let raw = capped_stake i c (kelly_stake i c) in
        let (cap, deep) = capped_stake-le i c (kelly_stake i c) n p m in
        let e = size-finish i c h in
        let (f1, f2, f3) =
          finish-le i c raw (rw e at h) (le-IsNumber_left raw (per_bet_cap i c) cap) a in
        let last = (finish i c raw).stake in
        rw e (
          le_trans last raw (per_bet_cap i c) f1 cap,
          below last raw i.depth_cap_usd f1 deep,
          f2,
          f3,
        )
