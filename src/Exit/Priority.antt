-- ===== src/Exit/Priority.antt =====
-- The rules of pkg/exit in their order, and that the decision is the first rule that applies.
use lobster_roll.Prelude.{ℕ, ◌<◌, ◌≡◌, Bool, true, false, ◌&&◌, ◌||◌, if◌then◌else◌, arith}
use lobster_roll.Float.{Float, ◌<?◌, ◌≤?◌, ◌⊖◌, ◌⊗◌, nought, one}
use lobster_roll.Exit.{
  Kind, hold, sell, hedge, Reason, no_position, stop_loss, leader_exited, lock_profit, take_profit,
  holding, Position, Config, decide, stop_loss_hit, hedge_lock_hit, take_profit_hit, clamp_frac,
}

-- The priority of a rule, the first being 0.
abbrev pub rank : Reason → ℕ
rank no_position = 0
rank stop_loss = 1
rank leader_exited = 2
rank lock_profit = 3
rank take_profit = 4
rank holding = 5

abbrev pub kind_of : Reason → Kind
kind_of no_position = hold
kind_of stop_loss = sell
kind_of leader_exited = sell
kind_of lock_profit = hedge
kind_of take_profit = sell
kind_of holding = hold

module _ {ℓ} {F : Type ℓ} ⦃d : Float F⦄ where
  -- Whether a rule's own condition holds, whatever the other rules say: no share is held; the price is
  -- at a positive stop or below it; the leader left; a hedge locks in a positive minimum; the price is
  -- at a positive target or above it; always.
  abbrev pub applies : Reason → Position F → Config F → Bool
  applies no_position p cfg = p.shares ≤? nought
  applies stop_loss p cfg = nought <? cfg.stop_loss && p.cur_price ≤? cfg.stop_loss
  applies leader_exited p cfg = cfg.leader_exited
  applies lock_profit p cfg =
      nought <? cfg.hedge_lock_min && cfg.hedge_lock_min ≤? one ⊖ p.entry_price ⊖ p.opp_price
  applies take_profit p cfg = nought <? cfg.take_profit && cfg.take_profit ≤? p.cur_price
  applies holding p cfg = true

  -- A fraction of the shares, all of them for one that is not in (0, 1].
  abbrev pub part : F → F → F
  part shares f = if f ≤? nought || one <? f then shares ⊗ one else shares ⊗ f

  -- The shares that a rule trades.
  abbrev pub shares_of : Reason → Position F → Config F → F
  shares_of no_position p cfg = nought
  shares_of stop_loss p cfg = p.shares
  shares_of leader_exited p cfg = part p.shares cfg.leader_exit_frac
  shares_of lock_profit p cfg = p.shares
  shares_of take_profit p cfg = part p.shares cfg.take_profit_frac
  shares_of holding p cfg = nought

  decide-applies : (p : Position F) (cfg : Config F) → applies (decide p cfg).reason p cfg ≡ true
  unfolding decide stop_loss_hit hedge_lock_hit take_profit_hit
  decide-applies p cfg = ground arith

  decide-before :
      (p : Position F) (cfg : Config F) (r : Reason)
      → rank r < rank (decide p cfg).reason
      → applies r p cfg ≡ false
  unfolding decide stop_loss_hit hedge_lock_hit take_profit_hit
  decide-before p cfg no_position h = ground arith
  decide-before p cfg stop_loss h = ground arith
  decide-before p cfg leader_exited h = ground arith
  decide-before p cfg lock_profit h = ground arith
  decide-before p cfg take_profit h = ground arith
  decide-before p cfg holding h = ground arith

  decide-kind :
      (p : Position F) (cfg : Config F) → (decide p cfg).kind ≡ kind_of (decide p cfg).reason
  unfolding decide stop_loss_hit hedge_lock_hit take_profit_hit
  decide-kind p cfg = ground arith

  decide-shares :
      (p : Position F) (cfg : Config F)
      → (decide p cfg).shares ≡ shares_of (decide p cfg).reason p cfg
  unfolding decide clamp_frac
  decide-shares p cfg = ground arith

  -- For every position and configuration, the condition of the rule that `decide` names holds, no
  -- rule before it in the order no position, stop loss, leader exit, hedge, take profit, hold has
  -- its condition met, and the action is the rule's: its kind, and its shares. A stop loss sells and a
  -- hedge covers all that is held, a leader exit and a take profit sell their fraction, holding and
  -- having no position trade none.
  pub decide_first :
      (p : Position F) (cfg : Config F)
      → let r = (decide p cfg).reason in
        (applies r p cfg ≡ true)
        × ((s : Reason) → rank s < rank r → applies s p cfg ≡ false)
        × ((decide p cfg).kind ≡ kind_of r)
        × ((decide p cfg).shares ≡ shares_of r p cfg)
  decide_first p cfg =
      (decide-applies p cfg, decide-before p cfg, decide-kind p cfg, decide-shares p cfg)
