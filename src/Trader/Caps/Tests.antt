-- ===== src/Trader/Caps/Tests.antt =====
-- The theorems on the caps at concrete amounts: 100 per trade, 150 per day, 200 of exposure.
use lobster_roll.Prelude.{
  ℕ, ◌*◌, ◌≡◌, refl, true, false, ◌&&◌, pos, some, none, codes, GoString, bytes_lt, [], ◌∷◌, arith,
  if◌then◌else◌,
}
use lobster_roll.Float.{
  Fixed, fixed_float, Fixed-IsRounded, add_fixed, sub_fixed, neg_fixed, ◌<?◌, ◌⊕◌, nought,
}
use lobster_roll.Trader.Caps.{Caps, per_day_cap, new_caps, reserve, release, roll_day}
use lobster_roll.Trader.Caps.Limits.{
  reserve_allowed, reserve_refused, reserves, releases, snapshots, run, run-day_spent,
}
use lobster_roll.Trader.Caps.Rollback.{
  release-reserve, release_after_midnight, release_sell_exceeds,
}

abbrev usd : ℕ → Fixed
usd n = some (pos (n * 1_000_000))

abbrev monday : GoString
monday = codes "2026-01-05"

abbrev tuesday : GoString
tuesday = codes "2026-01-06"

abbrev fresh_caps : Caps Fixed
fresh_caps = record {
  max_per_trade = usd 100;
  max_per_day = usd 150;
  max_open_exposure = usd 200;
  day_spent = usd 0;
  day_key = [];
  open_exposure = usd 0;
  has_ledger = false;
  saved = none;
}

refuses_over_day :
    (reserve monday (usd 90) true true (reserve monday (usd 90) true true fresh_caps).0).1
    ≡ per_day_cap
unfolding reserve add_fixed bytes_lt
refuses_over_day = refl

reserve_allowed_run :
    let after = (reserve monday (usd 90) true true fresh_caps).0 in
    ((fresh_caps.max_per_trade <? usd 90) ≡ false)
    × ((fresh_caps.max_per_day <? after.day_spent) ≡ false)
    × (after.day_spent ≡ (if bytes_lt [] monday then nought else usd 0) ⊕ usd 90)
    × ((true && fresh_caps.max_open_exposure <? after.open_exposure) ≡ false)
    × (after.max_per_day ≡ fresh_caps.max_per_day)
unfolding reserve add_fixed bytes_lt
reserve_allowed_run = reserve_allowed monday (usd 90) true true fresh_caps refl

reserve_refused_run : (reserve monday (usd 101) true true fresh_caps).0 ≡ roll_day monday fresh_caps
unfolding reserve add_fixed bytes_lt
reserve_refused_run = reserve_refused monday (usd 101) true true fresh_caps (λ e. cc)

run-day_spent_example :
    (usd 150
      <? (run (new_caps (usd 100) (usd 150) (usd 200) none) (
          reserves monday (usd 90) true true
          ∷ releases (usd 30) true true
          ∷ reserves monday (usd 90) false true
          ∷ snapshots tuesday
          ∷ [])).day_spent)
    ≡ false
unfolding new_caps
run-day_spent_example =
    run-day_spent Fixed-IsRounded (usd 150) refl (usd 100) (usd 200) none
      (reserves monday (usd 90) true true
        ∷ releases (usd 30) true true
        ∷ reserves monday (usd 90) false true
        ∷ snapshots tuesday
        ∷ [])
      refl (tt, (refl, (tt, (tt, tt))))

release-reserve_example :
    let after = release (usd 90) true true (reserve monday (usd 90) true true fresh_caps).0 in
    (after.day_spent ≡ usd 0) × (after.open_exposure ≡ usd 0)
unfolding reserve roll_day add_fixed bytes_lt
release-reserve_example =
    release-reserve fresh_caps monday (pos 90_000_000) true true true (pos 0) (pos 0) refl
      (omega arith) refl refl

-- 90 on Monday, 80 on Tuesday; Monday's is released, and Tuesday counts as unspent.
release_after_midnight_run :
    let c₁ = (reserve monday (usd 90) true true fresh_caps).0 in
    let c₂ = (reserve tuesday (usd 80) true true c₁).0 in
    (c₂.day_spent ≡ usd 80) × ((release (usd 90) true true c₂).day_spent ≡ nought)
unfolding reserve roll_day add_fixed bytes_lt
release_after_midnight_run =
    release_after_midnight fresh_caps monday (pos 90_000_000) true true true tuesday
      (pos 80_000_000) true true refl refl refl (omega arith)

-- Exposure 150: a sell of 60, then a buy of 80, then the sell fails: 230 of 200.
abbrev exposed : Caps Fixed
exposed = record fresh_caps { open_exposure = usd 150 }

release_sell_exceeds_run :
    let c₁ = (reserve monday (usd 60) false true exposed).0 in
    let c₂ = (reserve monday (usd 80) true true c₁).0 in
    ((usd 200 <? c₂.open_exposure) ≡ false)
    × ((usd 200 <? (release (usd 60) false true c₂).open_exposure) ≡ true)
unfolding reserve add_fixed neg_fixed sub_fixed bytes_lt
release_sell_exceeds_run =
    release_sell_exceeds exposed monday monday (pos 60_000_000) (pos 80_000_000) (pos 150_000_000)
      true true true refl refl refl refl
