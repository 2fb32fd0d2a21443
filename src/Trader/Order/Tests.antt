-- ===== src/Trader/Order/Tests.antt =====
-- Runs of the order, and an example for its theorem.
use lobster_roll.Prelude.{
  ◌≡◌, refl, [], none, some, codes, replicate, ℤ, pos, arith, false, bytes_eq, bytes_beq,
}
use lobster_roll.Float.{Fixed, fixed_float, div_fixed}
use lobster_roll.Bus.{OrderProposal}
use lobster_roll.Trader.Order.{Order, Amounts, from_proposal}
use lobster_roll.Trader.Order.Encoding.{Fits, struct_bytes-injective}

abbrev millionths : Fixed → ℤ
millionths none = pos 0
millionths (some v) = v

-- Every numeral is 0.5, and every id is 7.
abbrev amounts : Amounts Fixed
amounts = record {
  parse_float = λ s. some (some (pos 500_000));
  parse_int = λ s. some (pos 7);
  scale6 = millionths;
}

abbrev order : Order
order = record {
  salt = pos 1;
  maker = replicate 20 1;
  signer = replicate 20 2;
  token_id = pos 7;
  maker_amount = pos 25_000_000;
  taker_amount = pos 50_000_000;
  side = 0;
  signature_type = 1;
  timestamp = pos 9;
  metadata = replicate 32 0;
  builder = replicate 32 0;
}

abbrev proposal : OrderProposal Fixed
proposal = record {
  id = codes "p";
  source_trade = record {
    wallet = codes "0xabc";
    token_id = codes "7";
    side = codes "buy";
    price = codes "0.5";
    size = codes "100";
    tx_hash = codes "0x9";
    log_index = 4;
    block_number = 100;
    observed_at = 0;
    backfilled = false;
  };
  token_id = codes "7";
  side = codes "buy";
  limit_price = codes "0.5";
  size_usd = some (pos 25_000_000);
  reason = [];
}

-- A buy pays 25 dollars for 50 shares.
mirrored :
    from_proposal amounts proposal (replicate 20 1) (replicate 20 2) 1 (pos 1) (pos 9) ≡ some order
unfolding from_proposal bytes_beq div_fixed
mirrored = refl

order-Fits : Fits order
order-Fits = record {
  salt = omega arith;
  maker = refl;
  signer = refl;
  token_id = omega arith;
  maker_amount = omega arith;
  taker_amount = omega arith;
  side = omega arith;
  signature_type = omega arith;
  timestamp = omega arith;
  metadata = refl;
  builder = refl;
}

struct_bytes-injective_example : order ≡ order
struct_bytes-injective_example =
    struct_bytes-injective (λ bytes. bytes) order order order-Fits order-Fits refl
