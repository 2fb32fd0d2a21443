-- ===== src/Exit/Tests.antt =====
-- Runs of pkg/exit, and its theorems at concrete inputs.
use lobster_roll.Prelude.{◌<◌, ◌≡◌, refl, ◌⊎◌, true, false, some, pos}
use lobster_roll.Float.{
  Fixed, fixed_float, Fixed-IsOrdered, Fixed-IsRounded, mul_fixed, sub_fixed, ◌≤?◌, nought,
}
use lobster_roll.Exit.{
  Reason, sell, Position, Config, decide, take_profit, leader_exited, stop_loss_hit, hedge_lock_hit,
  take_profit_hit, clamp_frac,
}
use lobster_roll.Exit.Priority.{decide_first, applies, rank, kind_of, shares_of}
use lobster_roll.Exit.Amounts.{decide-shares-le}

-- Ten shares bought at 0.50 and now at 0.80.
abbrev winner : Position Fixed
winner = record {
  entry_price = some (pos 500_000);
  cur_price = some (pos 800_000);
  opp_price = some (pos 210_000);
  shares = some (pos 10_000_000);
}

-- Half at 0.75, stop at 0.20, hedge from a locked 0.35.
abbrev rules : Config Fixed
rules = record {
  stop_loss = some (pos 200_000);
  take_profit = some (pos 750_000);
  take_profit_frac = some (pos 500_000);
  hedge_lock_min = some (pos 350_000);
  leader_exited = false;
  leader_exit_frac = some (pos 0);
}

scales_out :
    decide winner rules
    ≡ record { kind = sell; shares = some (pos 5_000_000); reason = take_profit }
unfolding decide stop_loss_hit hedge_lock_hit take_profit_hit clamp_frac sub_fixed mul_fixed
scales_out = refl

-- An unset fraction sells everything.
follows_leader :
    decide winner (record rules { leader_exited = true })
    ≡ record { kind = sell; shares = some (pos 10_000_000); reason = leader_exited }
unfolding decide stop_loss_hit clamp_frac mul_fixed
follows_leader = refl

decide_first_example :
    let r = (decide winner rules).reason in
    (applies r winner rules ≡ true)
    × ((s : Reason) → rank s < rank r → applies s winner rules ≡ false)
    × ((decide winner rules).kind ≡ kind_of r)
    × ((decide winner rules).shares ≡ shares_of r winner rules)
decide_first_example = decide_first winner rules

decide-shares-le_run :
    (((winner.shares ≤? nought) ≡ true) × ((decide winner rules).shares ≡ nought))
    ⊎ (((decide winner rules).shares ≤? winner.shares) ≡ true)
decide-shares-le_run = decide-shares-le Fixed-IsOrdered Fixed-IsRounded winner rules refl refl refl
