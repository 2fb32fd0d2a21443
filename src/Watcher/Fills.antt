-- ===== src/Watcher/Fills.antt =====
-- services/watcher/internal/decode/decode.go, from FillFor on: fills from a wallet's side, and their
-- aggregation by transaction. The decimal strings of a Rat are rounded half away from zero, as
-- `FloatString` does.
pub mod Sides
pub mod Groups
mod Tests
use lobster_roll.Prelude.{
  ℕ, zero, suc, ◌+◌, ◌*◌, ◌/◌, ◌%◌, ◌-◌, ◌^◌, ◌≡◌, Bool, true, false, not, List, [], ◌∷◌, ◌++◌,
  Option, none, some, GoString, codes, ◌≟◌, bytes_eq, bytes_lt, ◌==◌, ltb, length, decimal,
  if◌then◌else◌, ◌&&◌, ◌||◌, to_lower, map, sort_by, trim_space, Eq, reverse, replicate,
}
use lobster_roll.Watcher.Decode.{Eth, OrderFilled, side_buy}

pub record Fill : Type 0 where
  pub wallet : GoString
  pub token_id : GoString
  pub buy : Bool
  pub usdc : ℕ
  pub shares : ℕ
  pub tx_hash : GoString
  pub log_index : ℕ
  pub block_number : ℕ

pub record Trade : Type 0 where
  pub wallet : GoString
  pub token_id : GoString
  pub side : GoString
  pub price : GoString
  pub size : GoString
  pub tx_hash : GoString
  pub log_index : ℕ
  pub block_number : ℕ

abbrev pub usdc_decimals : ℕ
usdc_decimals = 6

-- `%0*d`: at least `width` digits.
unfoldable pub padded : ℕ → ℕ → GoString
padded width n = let s = decimal n in replicate (width - length s) b'0' ++ s

unfoldable pub drop_leading : ℕ → List ℕ → List ℕ
drop_leading c [] = []
drop_leading c (x ∷ xs) = let rest = drop_leading c xs in if x == c then rest else x ∷ xs

-- `strings.TrimRight` by one byte.
unfoldable pub trim_right : ℕ → List ℕ → List ℕ
unfolding drop_leading
trim_right c s = reverse (drop_leading c (reverse s))

unfoldable pub contains_dot : GoString → Bool
contains_dot [] = false
contains_dot (c ∷ cs) = c == b'.' || contains_dot cs

unfoldable pub trim_decimal : GoString → GoString
unfolding trim_right contains_dot
trim_decimal s = if contains_dot s then trim_right b'.' (trim_right b'0' s) else s

unfoldable pub fixed_string : ℕ → ℕ → GoString
unfolding padded trim_decimal
fixed_string n decimals =
    let scale = 10 ^ decimals in
    if n % scale == 0
    then decimal (n / scale)
    else trim_decimal (decimal (n / scale) ++ b'.' ∷ padded decimals (n % scale))

-- usdc / shares in units of the last decimal, rounded half up.
unfoldable pub rounded_ratio : ℕ → ℕ → ℕ
rounded_ratio usdc shares = (2 * usdc * 10 ^ usdc_decimals + shares) / (2 * shares)

-- `SetFrac` and `FloatString`.
unfoldable pub float_string : ℕ → ℕ → GoString
unfolding rounded_ratio padded
float_string usdc shares =
    let r = rounded_ratio usdc shares in
    decimal (r / 10 ^ usdc_decimals) ++ b'.' ∷ padded usdc_decimals (r % 10 ^ usdc_decimals)

unfoldable pub price_string : ℕ → ℕ → GoString
unfolding float_string trim_decimal
price_string usdc shares =
    if shares == 0 then codes "0" else trim_decimal (float_string usdc shares)

module _ (eth : Eth) where
  open eth use {hash_hex, address_hex}

  unfoldable pub fill_for : OrderFilled → List ℕ → Option Fill
  fill_for o wallet =
      let is_maker = wallet ≟ o.maker in
      let is_taker = wallet ≟ o.taker in
      let maker_side_buy = o.side == side_buy in
      if not is_maker && not is_taker
      then none
      else some (record {
        wallet = to_lower (address_hex wallet);
        token_id = decimal o.token_id;
        buy = if is_taker then not maker_side_buy else maker_side_buy;
        usdc = if maker_side_buy then o.maker_amount else o.taker_amount;
        shares = if maker_side_buy then o.taker_amount else o.maker_amount;
        tx_hash = hash_hex o.tx_hash;
        log_index = o.log_index;
        block_number = o.block_number;
      })

unfoldable pub trade_from_fill : Fill → Trade
unfolding price_string fixed_string
trade_from_fill f = record {
  wallet = f.wallet;
  token_id = f.token_id;
  side = if f.buy then codes "buy" else codes "sell";
  price = price_string f.usdc f.shares;
  size = fixed_string f.shares usdc_decimals;
  tx_hash = f.tx_hash;
  log_index = f.log_index;
  block_number = f.block_number;
}

-- Two fills with one key (transaction, wallet, token, side).
unfoldable pub same_key : Fill → Fill → Bool
same_key f g =
    f.tx_hash ≟ g.tx_hash
    && f.wallet ≟ g.wallet
    && f.token_id ≟ g.token_id
    && (if f.buy then g.buy else not g.buy)

-- The amounts add up, and the position is the smallest.
unfoldable pub merge : Fill → Fill → Fill
merge g f = record g {
  usdc = g.usdc + f.usdc;
  shares = g.shares + f.shares;
  log_index = if ltb f.log_index g.log_index then f.log_index else g.log_index;
}

-- A fill joins its group, or starts one at the end: the map and the order of its keys in one list.
-- A group is kept as the fill that it becomes.
unfoldable pub join : Fill → List Fill → List Fill
join f [] = f ∷ []
join f (g ∷ gs) = if same_key g f then merge g f ∷ gs else g ∷ join f gs

unfoldable pub group_fills : List Fill → List Fill → List Fill
group_fills groups [] = groups
group_fills groups (f ∷ fs) = group_fills (join f groups) fs

unfoldable pub trade_before : Trade → Trade → Bool
trade_before a b =
    if not (a.tx_hash ≟ b.tx_hash)
    then bytes_lt a.tx_hash b.tx_hash
    else ltb a.log_index b.log_index

unfoldable pub aggregate_by_tx : List Fill → List Trade
unfolding group_fills trade_from_fill trade_before
aggregate_by_tx fills = sort_by trade_before (map trade_from_fill (group_fills [] fills))
