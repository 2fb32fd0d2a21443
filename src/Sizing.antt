-- ===== src/Sizing.antt =====
-- pkg/sizing/sizing.go: the stake of a copy signal. Sample counts are natural numbers; the reason
-- strings are the constructors of `Reason`, the empty one being `sized`.
pub mod Caps
mod Tests
use lobster_roll.Prelude.{ℕ, Bool, true, false, not, if◌then◌else◌, ◌||◌}
use lobster_roll.Float.{Float, ◌<?◌, ◌≤?◌, ◌⊕◌, ◌⊖◌, ◌⊗◌, ◌⊘◌, nought, one}

pub record Inputs {ℓ} (F : Type ℓ) : Type ℓ where
  pub price : F
  pub half_spread : F
  pub fee_rate : F
  pub slippage : F
  pub avg_clv : F
  pub clv_n : ℕ
  pub shrunk_roi : F
  pub fresh : Bool
  pub bankroll : F
  pub exposure : F
  pub drawdown_frac : F
  pub depth_cap_usd : F

pub record Config {ℓ} (F : Type ℓ) : Type ℓ where
  pub kelly_fraction : F
  pub edge_buffer : F
  pub max_spread : F
  pub per_bet_frac : F
  pub max_exposure_frac : F
  pub dd_derisk : F
  pub dd_stop : F
  pub clv_full : ℕ
  pub min_stake_usd : F

pub data Reason : Type 0 where
  sized : Reason
  no_bankroll price_out_of_range leader_cooling_off spread_too_wide drawdown_stop : Reason
  no_edge edge_below_buffer exposure_cap_reached below_min_stake : Reason

pub record Decision {ℓ} (F : Type ℓ) : Type ℓ where
  pub stake : F
  pub reason : Reason

module _ {ℓ} {F : Type ℓ} ⦃d : Float F⦄ where
  pub skip : Reason → Decision F
  skip r = record { stake = nought; reason = r }

  -- The value-weighted edge over the market price: CLV first, ROI as the fallback.
  pub edge : Inputs F → Config F → F
  edge i c =
      let ratio = d.of_ℕ i.clv_n ⊘ d.of_ℕ c.clv_full in
      let w_clv = if one <? ratio then one else ratio in
      let roi = if i.shrunk_roi <? nought then nought else i.shrunk_roi in
      w_clv ⊗ i.avg_clv ⊕ (one ⊖ w_clv) ⊗ (i.price ⊗ roi)

  pub cost : Inputs F → F
  cost i = i.half_spread ⊕ i.fee_rate ⊗ i.price ⊗ (one ⊖ i.price) ⊕ i.slippage

  pub edge_eff : Inputs F → Config F → F
  edge_eff i c = edge i c ⊖ cost i

  -- Fractional Kelly, before any cap.
  pub kelly_stake : Inputs F → Config F → F
  kelly_stake i c = c.kelly_fraction ⊗ (edge_eff i c ⊘ (one ⊖ i.price)) ⊗ i.bankroll

  pub per_bet_cap : Inputs F → Config F → F
  per_bet_cap i c = c.per_bet_frac ⊗ i.bankroll

  -- The per-bet and depth caps, then the drawdown brake.
  pub capped_stake : Inputs F → Config F → F → F
  capped_stake i c stake =
      let per_bet = if per_bet_cap i c <? stake then per_bet_cap i c else stake in
      let deep =
        if nought <? i.depth_cap_usd
        then (if i.depth_cap_usd <? per_bet then i.depth_cap_usd else per_bet)
        else per_bet in
      if c.dd_derisk ≤? i.drawdown_frac then deep ⊗ d.lit 1 2 else deep

  pub available : Inputs F → Config F → F
  available i c = c.max_exposure_frac ⊗ i.bankroll ⊖ i.exposure

  -- The exposure cap and the minimum, the last steps.
  pub finish : Inputs F → Config F → F → Decision F
  finish i c stake =
      if available i c ≤? nought
      then skip exposure_cap_reached
      else (let final = if available i c <? stake then available i c else stake in
          if final <? c.min_stake_usd
          then skip below_min_stake
          else record { stake = final; reason = sized })

  pub size : Inputs F → Config F → Decision F
  unfolding finish
  size i c =
      if i.bankroll ≤? nought
      then skip no_bankroll
      else if i.price ≤? nought || one ≤? i.price
      then skip price_out_of_range
      else if not i.fresh
      then skip leader_cooling_off
      else if c.max_spread <? d.of_ℕ 2 ⊗ i.half_spread
      then skip spread_too_wide
      else if c.dd_stop ≤? i.drawdown_frac
      then skip drawdown_stop
      else if edge i c ≤? nought
      then skip no_edge
      else if edge_eff i c ≤? c.edge_buffer
      then skip edge_below_buffer
      else finish i c (capped_stake i c (kelly_stake i c))
