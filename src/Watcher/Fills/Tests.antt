-- ===== src/Watcher/Fills/Tests.antt =====
-- Runs of the aggregation on three fills of two keys.
use lobster_roll.Prelude.{
  decimal, digits, bytes_beq, ℕ, ◌≡◌, ◌≢◌, refl, ◌↔◌, ◌⊎◌, true, false, not, List, [], ◌∷◌, none,
  some, codes, arith, length, IsSorted, ◌==◌, if◌then◌else◌, to_lower,
}
use lobster_roll.Watcher.Decode.{Eth, OrderFilled, side_buy}
use lobster_roll.Watcher.Fills.{
  Fill, fill_for, group_fills, aggregate_by_tx, trade_before, price_string, padded, trim_decimal,
  trim_right, drop_leading, contains_dot, float_string, rounded_ratio,
}
use lobster_roll.Watcher.Fills.Sides.{fill_for_iff, fill_for-sides}
use lobster_roll.Watcher.Fills.Groups.{
  usdc_of_key, shares_of_key, Apart, group_fills-conserves, aggregate_by_tx-IsSorted,
}

abbrev eth : Eth
eth = record { hash_hex = λ h. h; bytes_to_address = λ b. b; address_hex = λ a. a }

abbrev order : OrderFilled
order = record {
  order_hash = 1 ∷ [];
  maker = 2 ∷ [];
  taker = 3 ∷ [];
  side = 0;
  token_id = 7;
  maker_amount = 5_000_000;
  taker_amount = 10_000_000;
  fee = 0;
  tx_hash = 9 ∷ [];
  log_index = 4;
  block_number = 100;
}

abbrev bought : ℕ → ℕ → ℕ → Fill
bought usdc shares index = record {
  wallet = 2 ∷ [];
  token_id = codes "7";
  buy = true;
  usdc = usdc;
  shares = shares;
  tx_hash = 9 ∷ [];
  log_index = index;
  block_number = 100;
}

abbrev fills : List Fill
fills =
    bought 1_000_000 3_000_000 8
    ∷ record (bought 5 5 1) { buy = false }
    ∷ bought 2_000_000 3_000_000 4
    ∷ []

abbrev maker_fill : Fill
maker_fill = bought 5_000_000 10_000_000 4

abbrev taker_fill : Fill
taker_fill = record maker_fill { wallet = 3 ∷ []; buy = false }

price_run : price_string 1_000_000 3_000_000 ≡ codes "0.333333"
unfolding price_string float_string rounded_ratio decimal digits padded trim_decimal trim_right
    drop_leading contains_dot
price_run = refl

maker_run : fill_for eth order order.maker ≡ some maker_fill
unfolding fill_for decimal digits to_lower bytes_beq
maker_run = refl

taker_run : fill_for eth order order.taker ≡ some taker_fill
unfolding fill_for decimal digits to_lower bytes_beq
taker_run = refl

fill_for_iff_run :
    (fill_for eth order order.maker ≢ none)
    ↔ ((order.maker ≡ order.maker) ⊎ (order.maker ≡ order.taker))
fill_for_iff_run = fill_for_iff eth order order.maker

differ : order.maker ≢ order.taker
differ e = ground (arith, e)

fill_for-sides_run :
    (maker_fill.buy ≡ (order.side == side_buy))
    × (taker_fill.buy ≡ not maker_fill.buy)
    × (maker_fill.usdc ≡ taker_fill.usdc)
    × (maker_fill.shares ≡ taker_fill.shares)
    × (maker_fill.usdc ≡ (if maker_fill.buy then order.maker_amount else order.taker_amount))
    × (maker_fill.shares ≡ (if maker_fill.buy then order.taker_amount else order.maker_amount))
    × (maker_fill.token_id ≡ taker_fill.token_id)
    × (maker_fill.log_index ≡ taker_fill.log_index)
fill_for-sides_run = fill_for-sides eth order differ maker_run taker_run

group_fills-conserves_example :
    (usdc_of_key (bought 0 0 0) (group_fills [] fills) ≡ usdc_of_key (bought 0 0 0) fills)
    × (shares_of_key (bought 0 0 0) (group_fills [] fills) ≡ shares_of_key (bought 0 0 0) fills)
    × Apart (group_fills [] fills)
group_fills-conserves_example = group_fills-conserves (bought 0 0 0) fills

aggregate_by_tx-IsSorted_run :
    (length (aggregate_by_tx fills) ≡ length (group_fills [] fills))
    × IsSorted trade_before (aggregate_by_tx fills)
aggregate_by_tx-IsSorted_run = aggregate_by_tx-IsSorted fills
