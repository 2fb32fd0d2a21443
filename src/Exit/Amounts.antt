-- ===== src/Exit/Amounts.antt =====
-- How many shares an exit trades.
use lobster_roll.Prelude.{◌≡◌, ◌⊎◌, inl, inr, true, arith, Bool-cases}
use lobster_roll.Float.{Float, IsOrdered, IsRounded, IsNumber, ◌<?◌, ◌≤?◌, ◌⊗◌, nought, one}
use lobster_roll.Exit.{Position, Config, decide, clamp_frac}

module _ {ℓ} {F : Type ℓ} ⦃d : Float F⦄ (order : IsOrdered F) (rounding : IsRounded F) where
  open order use {not_lt-le, not_le-lt}
  open rounding use {nought-IsNumber, nought-le-one, nought-lt-one, one-le-one, mul-le_self}

  clamp_frac_bounds :
      (f : F) → IsNumber f → ((nought <? clamp_frac f) ≡ true) × ((clamp_frac f ≤? one) ≡ true)
  unfolding clamp_frac
  clamp_frac_bounds f n = ground (
    arith,
    nought-lt-one,
    one-le-one,
    nought-IsNumber,
    not_lt-le one f one-le-one n,
    not_le-lt f nought n nought-IsNumber,
  )

  part-le : (x f : F) → (nought <? x) ≡ true → IsNumber f → (x ⊗ clamp_frac f ≤? x) ≡ true
  part-le x f pos n = let (low, high) = clamp_frac_bounds f n in mul-le_self x _ pos low high

  -- On a position whose share count is a number, with fractions that are numbers, the action never
  -- asks for more shares than are held; without a position it asks for none.
  pub decide-shares-le :
      (p : Position F) (cfg : Config F)
      → IsNumber p.shares
      → IsNumber cfg.leader_exit_frac
      → IsNumber cfg.take_profit_frac
      → (((p.shares ≤? nought) ≡ true) × ((decide p cfg).shares ≡ nought))
        ⊎ (((decide p cfg).shares ≤? p.shares) ≡ true)
  unfolding decide
  decide-shares-le p cfg n l t = elim (Bool-cases (p.shares ≤? nought)) [
    | inl none_held ↦ inl (ground arith)
    | inr held ↦
        let pos = not_le-lt _ _ n nought-IsNumber held in
        inr (
          ground (
            arith,
            order.lt-le _ _ pos,
            part-le p.shares cfg.leader_exit_frac pos l,
            part-le p.shares cfg.take_profit_frac pos t,
          ))
  ]
