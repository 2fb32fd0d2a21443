-- ===== src/Trader/Caps.antt =====
-- services/trader/internal/caps/caps.go: the hard caps. The mutex makes each call one step. The
-- formatted UTC date is an argument, and so is whether the ledger's write succeeds; `saved` is the
-- row of the ledger, where there is one.
pub mod Limits
pub mod Rollback
mod Tests
use lobster_roll.Prelude.{
  ◌≡◌, Bool, true, false, Option, none, some, List, [], ◌∷◌, GoString, bytes_lt, if◌then◌else◌,
  ◌&&◌,
}
use lobster_roll.Float.{Float, ◌<?◌, ◌⊕◌, ◌⊖◌, nought}

-- caps_ledger, the single row.
pub record Row {ℓ} (F : Type ℓ) : Type ℓ where
  pub day_key : GoString
  pub day_spent : F
  pub open_exposure : F

pub record Caps {ℓ} (F : Type ℓ) : Type ℓ where
  pub max_per_trade : F
  pub max_per_day : F
  pub max_open_exposure : F
  pub day_spent : F
  pub day_key : GoString
  pub open_exposure : F
  pub has_ledger : Bool
  pub saved : Option (Row F)

pub data Reason : Type 0 where
  allowed per_trade_cap per_day_cap open_exposure_cap : Reason

-- What `LoadCaps` reports.
pub data Loaded {ℓ} (F : Type ℓ) : Type ℓ where
  load_failed : Loaded F
  no_row : Loaded F
  loaded : Row F → Loaded F

module _ {ℓ} {F : Type ℓ} ⦃d : Float F⦄ where
  zeroed : F → F → F → Bool → Caps F
  zeroed per_trade per_day exposure has_ledger = record {
    max_per_trade = per_trade;
    max_per_day = per_day;
    max_open_exposure = exposure;
    day_spent = nought;
    day_key = [];
    open_exposure = nought;
    has_ledger = has_ledger;
    saved = none;
  }

  -- `New`, with no ledger or with what its load reports.
  pub new_caps : F → F → F → Option (Loaded F) → Caps F
  unfolding zeroed
  new_caps t p e none = zeroed t p e false
  new_caps t p e (some load_failed) = zeroed t p e true
  new_caps t p e (some no_row) = zeroed t p e true
  new_caps t p e (some (loaded r)) = record (zeroed t p e true) {
    day_key = r.day_key;
    day_spent = r.day_spent;
    open_exposure = r.open_exposure;
    saved = some r;
  }

  pub roll_day : GoString → Caps F → Caps F
  roll_day key c =
      if bytes_lt c.day_key key then record c { day_key = key; day_spent = nought } else c

  pub signed : F → Bool → F
  signed size_usd buy = if buy then size_usd else d.neg size_usd

  pub persist : Bool → Caps F → Caps F
  persist save_ok c =
      if c.has_ledger && save_ok
      then record c {
        saved = some (record {
          day_key = c.day_key;
          day_spent = c.day_spent;
          open_exposure = c.open_exposure;
        });
      }
      else c

  -- The checks of `Reserve`, on the rolled day.
  pub check : F → Bool → Caps F → Reason
  check size_usd buy c =
      if c.max_per_trade <? size_usd
      then per_trade_cap
      else if c.max_per_day <? c.day_spent ⊕ size_usd
      then per_day_cap
      else if buy && c.max_open_exposure <? c.open_exposure ⊕ size_usd
      then open_exposure_cap
      else allowed

  pub commit : F → Bool → Caps F → Caps F
  unfolding signed
  commit size_usd buy c = record c {
    day_spent = c.day_spent ⊕ size_usd;
    open_exposure = c.open_exposure ⊕ signed size_usd buy;
  }

  pub finish_reserve : Reason → F → Bool → Bool → Caps F → Caps F × Reason
  unfolding persist commit
  finish_reserve allowed size_usd buy save_ok c = (persist save_ok (commit size_usd buy c), allowed)
  finish_reserve r size_usd buy save_ok c = (c, r)

  -- The reason is `allowed` where the code returns Allowed.
  unfoldable pub reserve : GoString → F → Bool → Bool → Caps F → Caps F × Reason
  unfolding roll_day check finish_reserve
  reserve key size_usd buy save_ok c =
      let rolled = roll_day key c in
      finish_reserve (check size_usd buy rolled) size_usd buy save_ok rolled

  pub release : F → Bool → Bool → Caps F → Caps F
  unfolding signed persist
  release size_usd buy save_ok c =
      let spent = c.day_spent ⊖ size_usd in
      persist save_ok (record c {
        day_spent = if spent <? nought then nought else spent;
        open_exposure = c.open_exposure ⊖ signed size_usd buy;
      })

  pub snapshot : GoString → Caps F → Caps F × F × F
  unfolding roll_day
  snapshot key c = let rolled = roll_day key c in (rolled, rolled.day_spent, rolled.open_exposure)
