-- ===== src/Consensus/Window.antt =====
-- services/consensus/internal/window/window.go: the rolling window of trades and the sizes at which
-- a cohort has fired. The two tables are lists of rows; a transaction that fails at any statement is
-- rolled back. Times are unix seconds; `big.Float` is a parameter.
pub mod Cohorts
pub mod Fired
mod Tests
use lobster_roll.Prelude.{
  ℕ, ◌+◌, ◌-◌, ◌≡◌, Bool, true, false, not, ◌&&◌, List, [], ◌∷◌, ◌++◌, map, Option, none, some,
  GoString, Eq, ◌≟◌, bytes_eq, bytes_lt, keep, length, lookup, insert, delete, sort_by, to_lower,
  trim_space, ltb, leb, ◌==◌, if◌then◌else◌,
}
use lobster_roll.Float.{Float, ◌⊕◌, nought}
use lobster_roll.Bus.{TradeDetected}

-- What the code uses of math/big.
pub record BigFloat {ℓ} (B : Type ℓ) (F : Type ℓ) : Type ℓ where
  pub parse : GoString → Option B
  pub times : B → B → B
  pub to_float64 : B → F

-- A row of trade_events.
pub record Event {ℓ} (F : Type ℓ) : Type ℓ where
  pub token_id : GoString
  pub side : GoString
  pub wallet : GoString
  pub usdc : F
  pub observed_unix : ℕ

-- A row of fired, whose key is the token and the side.
pub record FiredRow : Type 0 where
  pub fired_token : GoString
  pub fired_side : GoString
  pub count : ℕ
  pub fired_unix : ℕ

pub record Store {ℓ} (F : Type ℓ) : Type ℓ where
  pub window : ℕ
  pub min_wallets : ℕ
  pub events : List (Event F)
  pub fired : List FiredRow

pub record Cohort {ℓ} (F : Type ℓ) : Type ℓ where
  pub wallets : List GoString
  pub combined_usd : F

-- `Count`.
unfoldable pub cohort_count {ℓ} : {F : Type ℓ} → Cohort F → ℕ
cohort_count c = length c.wallets

unfoldable pub is_row : GoString → GoString → FiredRow → Bool
is_row token side r = r.fired_token ≟ token && r.fired_side ≟ side

-- SELECT count: 0 where there is no row.
unfoldable pub fired_count : GoString → GoString → List FiredRow → ℕ
unfolding is_row
fired_count token side [] = 0
fired_count token side (r ∷ rs) = if is_row token side r then r.count else fired_count token side rs

unfoldable pub delete_fired : GoString → GoString → List FiredRow → List FiredRow
unfolding is_row
delete_fired token side = keep (λ r. not (is_row token side r))

-- INSERT … ON CONFLICT DO UPDATE.
unfoldable pub upsert_fired : FiredRow → List FiredRow → List FiredRow
unfolding is_row
upsert_fired row [] = row ∷ []
upsert_fired row (r ∷ rs) =
    if is_row row.fired_token row.fired_side r then row ∷ rs else r ∷ upsert_fired row rs

-- `decideFire`, on the table and the cohort's count.
unfoldable pub decide_fire : ℕ → GoString → GoString → ℕ → ℕ → List FiredRow → List FiredRow × Bool
decide_fire min_wallets token side count now fired =
    let prev = fired_count token side fired in
    if ltb count min_wallets
    then (if prev == 0 then (fired, false) else (delete_fired token side fired, false))
    else if ltb prev count
    then (
      upsert_fired
          (record { fired_token = token; fired_side = side; count = count; fired_unix = now })
          fired,
      true,
    )
    else (fired, false)

module _ {ℓ} {F : Type ℓ} where
  -- The WHERE clause of the aggregate.
  unfoldable pub in_cohort : GoString → GoString → ℕ → Event F → Bool
  in_cohort token side cutoff e = e.token_id ≟ token && e.side ≟ side && leb cutoff e.observed_unix

  -- EXISTS (SELECT … FROM trade_events …).
  unfoldable pub any_event : (Event F → Bool) → List (Event F) → Bool
  any_event p [] = false
  any_event p (e ∷ es) = if p e then true else any_event p es

  unfoldable pub prune : ℕ → List (Event F) → List (Event F)
  prune cutoff = keep (λ e. not (ltb e.observed_unix cutoff))

  unfoldable pub reap : ℕ → List (Event F) → List FiredRow → List FiredRow
  reap cutoff events = keep (λ r. any_event (in_cohort r.fired_token r.fired_side cutoff) events)

module _ {ℓ} {F : Type ℓ} ⦃d : Float F⦄ where
  -- SELECT wallet, SUM(usdc) … GROUP BY wallet.
  unfoldable pub add_to_group : GoString → F → List (GoString × F) → List (GoString × F)
  add_to_group w usdc [] = (w, usdc) ∷ []
  add_to_group w usdc ((v, sum) ∷ gs) =
      if v ≟ w then (v, sum ⊕ usdc) ∷ gs else (v, sum) ∷ add_to_group w usdc gs

  unfoldable pub group_by_wallet : List (Event F) → List (GoString × F)
  group_by_wallet [] = []
  group_by_wallet (e ∷ es) = add_to_group e.wallet e.usdc (group_by_wallet es)

  unfoldable pub sum_groups : F → List (GoString × F) → F
  sum_groups acc [] = acc
  sum_groups acc ((w, sum) ∷ gs) = sum_groups (acc ⊕ sum) gs

  unfoldable pub wallets_of : List (GoString × F) → List GoString
  wallets_of [] = []
  wallets_of ((w, sum) ∷ gs) = w ∷ wallets_of gs

  unfoldable pub cohort_of : GoString → GoString → ℕ → List (Event F) → Cohort F
  cohort_of token side cutoff events =
      let groups = group_by_wallet (keep (in_cohort token side cutoff) events) in
      record {
        wallets = sort_by bytes_lt (wallets_of groups);
        combined_usd = sum_groups nought groups;
      }

  module _ {B : Type ℓ} (big : BigFloat B F) where
    unfoldable pub usdc_of : Option B → Option B → F
    usdc_of (some sz) (some pr) = big.to_float64 (big.times sz pr)
    usdc_of _ _ = nought

    unfoldable pub usdc_value : GoString → GoString → F
    usdc_value size price = usdc_of (big.parse (trim_space size)) (big.parse (trim_space price))

    -- The row that `Record` inserts.
    unfoldable pub event_of : ℕ → TradeDetected → Event F
    event_of now ev = record {
      token_id = ev.token_id;
      side = to_lower ev.side;
      wallet = to_lower (trim_space ev.wallet);
      usdc = usdc_value ev.size ev.price;
      observed_unix = now;
    }

    -- `Record`: `none` is the error. The outside decides whether every statement and the commit
    -- succeed.
    unfoldable pub record_trade :
        Bool → ℕ → TradeDetected → Store F → Store F × Option (Cohort F × Bool)
    record_trade db_ok now ev s =
        let cutoff = now - s.window in
        let row = event_of now ev in
        let events = prune cutoff (s.events ++ row ∷ []) in
        let reaped = reap cutoff events s.fired in
        let c = cohort_of row.token_id row.side cutoff events in
        let (fired, fire) =
          decide_fire s.min_wallets row.token_id row.side (cohort_count c) now reaped in
        if db_ok then (record s { events = events; fired = fired }, some (c, fire)) else (s, none)
