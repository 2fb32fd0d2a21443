-- ===== src/Exit.antt =====
-- pkg/exit/exit.go: the decision engine for an open, copied position. The reason strings are the
-- constructors of `Reason`.
pub mod Priority
pub mod Amounts
mod Tests
use lobster_roll.Prelude.{Bool, true, false, if◌then◌else◌, ◌&&◌, ◌||◌}
use lobster_roll.Float.{Float, ◌<?◌, ◌≤?◌, ◌⊖◌, ◌⊗◌, nought, one}

pub data Kind : Type 0 where
  hold sell hedge : Kind

pub data Reason : Type 0 where
  no_position stop_loss leader_exited lock_profit take_profit holding : Reason

pub record Action {ℓ} (F : Type ℓ) : Type ℓ where
  pub kind : Kind
  pub shares : F
  pub reason : Reason

pub record Position {ℓ} (F : Type ℓ) : Type ℓ where
  pub entry_price : F
  pub cur_price : F
  pub opp_price : F
  pub shares : F

pub record Config {ℓ} (F : Type ℓ) : Type ℓ where
  pub stop_loss : F
  pub take_profit : F
  pub take_profit_frac : F
  pub hedge_lock_min : F
  pub leader_exited : Bool
  pub leader_exit_frac : F

module _ {ℓ} {F : Type ℓ} ⦃d : Float F⦄ where
  pub lockable_profit_frac : F → F → F
  lockable_profit_frac entry opp = one ⊖ entry ⊖ opp

  pub clamp_frac : F → F
  clamp_frac f = if f ≤? nought || one <? f then one else f

  -- The guards of the rules, as the code tests them.
  pub stop_loss_hit : Position F → Config F → Bool
  stop_loss_hit p cfg = nought <? cfg.stop_loss && p.cur_price ≤? cfg.stop_loss

  pub hedge_lock_hit : Position F → Config F → Bool
  unfolding lockable_profit_frac
  hedge_lock_hit p cfg =
      nought <? cfg.hedge_lock_min
      && cfg.hedge_lock_min ≤? lockable_profit_frac p.entry_price p.opp_price

  pub take_profit_hit : Position F → Config F → Bool
  take_profit_hit p cfg = nought <? cfg.take_profit && cfg.take_profit ≤? p.cur_price

  pub decide : Position F → Config F → Action F
  decide p cfg =
      if p.shares ≤? nought
      then record { kind = hold; shares = nought; reason = no_position }
      else if stop_loss_hit p cfg
      then record { kind = sell; shares = p.shares; reason = stop_loss }
      else if cfg.leader_exited
      then record {
        kind = sell;
        shares = p.shares ⊗ clamp_frac cfg.leader_exit_frac;
        reason = leader_exited;
      }
      else if hedge_lock_hit p cfg
      then record { kind = hedge; shares = p.shares; reason = lock_profit }
      else if take_profit_hit p cfg
      then record {
        kind = sell;
        shares = p.shares ⊗ clamp_frac cfg.take_profit_frac;
        reason = take_profit;
      }
      else record { kind = hold; shares = nought; reason = holding }
