-- ===== src/Trader/Caps/Limits.antt =====
-- The caps hold: one reservation against each cap, and the daily cap over every history of calls.
use lobster_roll.Prelude.{
  ◌≡◌, ◌≢◌, refl, Bool, true, false, List, [], ◌∷◌, GoString, All, arith, if◌then◌else◌, ◌&&◌,
  bytes_lt, Option, none, some,
}
use lobster_roll.Float.{Float, IsRounded, ◌<?◌, ◌≤?◌, ◌⊕◌, nought}
use lobster_roll.Trader.Caps.{
  Caps, allowed, roll_day, reserve, release, snapshot, new_caps, Loaded, loaded, no_row,
  load_failed,
}

pub data Call {ℓ} (F : Type ℓ) : Type ℓ where
  reserves : GoString → F → Bool → Bool → Call F
  releases : F → Bool → Bool → Call F
  snapshots : GoString → Call F

module _ {ℓ} {F : Type ℓ} ⦃d : Float F⦄ where
  -- If a reservation is allowed, then its size is not above the per-trade cap, the day's spend
  -- after it is not above the per-day cap and is the rolled day's spend plus the size, and for a buy
  -- the exposure after it is not above the exposure cap; the limits stay as they were.
  pub reserve_allowed :
      (key : GoString) (size : F) (buy save_ok : Bool) (c : Caps F)
      → (reserve key size buy save_ok c).1 ≡ allowed
      → let after = (reserve key size buy save_ok c).0 in
        ((c.max_per_trade <? size) ≡ false)
        × ((c.max_per_day <? after.day_spent) ≡ false)
        × (after.day_spent ≡ (if bytes_lt c.day_key key then nought else c.day_spent) ⊕ size)
        × ((buy && c.max_open_exposure <? after.open_exposure) ≡ false)
        × (after.max_per_day ≡ c.max_per_day)
  unfolding reserve
  reserve_allowed key size buy save_ok c h = ground arith

  -- A reservation that is refused commits nothing: the caps are as after the day's roll alone.
  pub reserve_refused :
      (key : GoString) (size : F) (buy save_ok : Bool) (c : Caps F)
      → (reserve key size buy save_ok c).1 ≢ allowed
      → (reserve key size buy save_ok c).0 ≡ roll_day key c
  unfolding reserve
  reserve_refused key size buy save_ok c h = ground arith

  pub step : Caps F → Call F → Caps F
  step c (reserves key size buy save_ok) = (reserve key size buy save_ok c).0
  step c (releases size buy save_ok) = release size buy save_ok c
  step c (snapshots key) = (snapshot key c).0

  pub run : Caps F → List (Call F) → Caps F
  run c [] = c
  run c (x ∷ xs) = run (step c x) xs

  -- A call that releases nothing below zero.
  abbrev pub Sane : Call F → Type 0
  Sane (reserves key size buy save_ok) = Unit {0}
  Sane (releases size buy save_ok) = (nought ≤? size) ≡ true
  Sane (snapshots key) = Unit {0}

  abbrev Within : F → Caps F → Type ℓ
  Within limit c = (c.max_per_day ≡ limit) × ((limit <? c.day_spent) ≡ false)

  module _ (rounding : IsRounded F) (limit : F) (positive : (limit <? nought) ≡ false) where
    reserve-Within :
        (key : GoString) (size : F) (buy save_ok : Bool) (c : Caps F)
        → Within limit c
        → Within limit (reserve key size buy save_ok c).0
    unfolding reserve
    reserve-Within key size buy save_ok c w = ground arith

    release-Within :
        (size : F) (buy save_ok : Bool) (c : Caps F)
        → (nought ≤? size) ≡ true
        → Within limit c
        → Within limit (release size buy save_ok c)
    unfolding release
    release-Within size buy save_ok c h w =
        ground (arith, rounding.sub-not-lt limit c.day_spent size w.1 h)

    run-Within :
        (c : Caps F) (xs : List (Call F)) → All Sane xs → Within limit c → Within limit (run c xs)
    unfolding run step snapshot roll_day
    run-Within c [] s w = w
    run-Within c (reserves key size buy save_ok ∷ xs) (s, ss) w =
        run-Within (step c (reserves key size buy save_ok)) xs ss
          (reserve-Within key size buy save_ok c w)
    run-Within c (releases size buy save_ok ∷ xs) (s, ss) w =
        run-Within (step c (releases size buy save_ok)) xs ss
          (release-Within size buy save_ok c s w)
    run-Within c (snapshots key ∷ xs) (s, ss) w =
        run-Within (step c (snapshots key)) xs ss (ground arith)

    new_caps-limit : (t e : F) (l : Option (Loaded F)) → (new_caps t limit e l).max_per_day ≡ limit
    unfolding new_caps
    new_caps-limit t e none = refl
    new_caps-limit t e (some load_failed) = refl
    new_caps-limit t e (some no_row) = refl
    new_caps-limit t e (some (loaded r)) = refl

    -- From caps built with no ledger or with a ledger whose loaded spend is not above the per-day
    -- cap, where that cap is not below zero, no history of reservations, releases of sizes that are
    -- not negative, and snapshots brings the day's spend above the per-day cap.
    pub run-day_spent :
        (per_trade exposure : F) (l : Option (Loaded F)) (xs : List (Call F))
        → (limit <? (new_caps per_trade limit exposure l).day_spent) ≡ false
        → All Sane xs
        → (limit <? (run (new_caps per_trade limit exposure l) xs).day_spent) ≡ false
    run-day_spent per_trade exposure l xs h s =
        (run-Within (new_caps per_trade limit exposure l) xs s
          (new_caps-limit per_trade exposure l, h)).1
