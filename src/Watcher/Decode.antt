-- ===== src/Watcher/Decode.antt =====
-- services/watcher/internal/decode/decode.go, the event decoders. What go-ethereum does with hashes
-- and addresses is a parameter; hashes, addresses and data are lists of bytes, a big.Int is a number.
pub mod Words
pub mod RoundTrip
mod Tests
use lobster_roll.Prelude.{
  ℕ, zero, suc, ◌+◌, ◌*◌, ◌^◌, ◌≡◌, Bool, true, false, not, List, [], ◌∷◌, Option, none, some,
  GoString, codes, ◌≟◌, bytes_eq, ◌==◌, ltb, length, take, drop, if◌then◌else◌, ◌&&◌, ◌||◌,
  to_lower, foldl,
}

-- What the code uses of go-ethereum: `Hash.Hex`, `BytesToAddress`, `Address.Hex`.
pub record Eth : Type 0 where
  pub hash_hex : List ℕ → GoString
  pub bytes_to_address : List ℕ → List ℕ
  pub address_hex : List ℕ → GoString

-- types.Log, the fields that the code reads.
pub record Log : Type 0 where
  pub topics : List (List ℕ)
  pub content : List ℕ
  pub tx_hash : List ℕ
  pub index : ℕ
  pub block_number : ℕ

pub record OrderFilled : Type 0 where
  pub order_hash : List ℕ
  pub maker : List ℕ
  pub taker : List ℕ
  pub side : ℕ
  pub token_id : ℕ
  pub maker_amount : ℕ
  pub taker_amount : ℕ
  pub fee : ℕ
  pub tx_hash : List ℕ
  pub log_index : ℕ
  pub block_number : ℕ

pub data Error : Type 0 where
  no_topics unknown_topic wrong_topics unexpected_topic wrong_length invalid_side ambiguous_assets :
      Error

pub data Result {ℓ} (A : Type ℓ) : Type ℓ where
  ok : A → Result A
  err : Error → Result A

abbrev pub side_buy : ℕ
side_buy = 0

abbrev pub side_sell : ℕ
side_sell = 1

-- pkg/chain/contracts.go.
unfoldable pub order_filled_topic : GoString
order_filled_topic = codes "0xd543adfd945773f1a62f74f0ee55a5e3b9b1a28262980ba90b1a89f2ea84d8ee"

unfoldable pub order_filled_topic_legacy : GoString
order_filled_topic_legacy =
    codes "0xd0a08e8c493f9c94f29311604c9de1b4e8c8d4c06bd0c789af57f2d65bfec0f6"

-- `new(big.Int).SetBytes`: big-endian.
unfoldable pub set_bytes : List ℕ → ℕ
set_bytes bs = foldl (λ acc b. acc * 256 + b) 0 bs

-- The i-th word of 32 bytes.
unfoldable pub word : List ℕ → ℕ → List ℕ
word content i = take 32 (drop (i * 32) content)

-- `IsUint64`, with the side's two values.
unfoldable pub is_side : ℕ → Bool
is_side s = ltb s (2 ^ 64) && (s == side_buy || s == side_sell)

-- The side from the collateral, whose asset id is 0.
unfoldable pub legacy_side : ℕ → ℕ → Option (ℕ × ℕ)
legacy_side maker_asset taker_asset =
    if maker_asset == 0 && not (taker_asset == 0)
    then some (side_buy, taker_asset)
    else if taker_asset == 0 && not (maker_asset == 0)
    then some (side_sell, maker_asset)
    else none

module _ (eth : Eth) where
  open eth use {hash_hex, bytes_to_address, address_hex}

  unfoldable pub from_words : Log → List ℕ → List ℕ → List ℕ → ℕ → ℕ → ℕ → ℕ → ℕ → OrderFilled
  from_words log order maker taker side token maker_amount taker_amount fee = record {
    order_hash = order;
    maker = bytes_to_address maker;
    taker = bytes_to_address taker;
    side = side;
    token_id = token;
    maker_amount = maker_amount;
    taker_amount = taker_amount;
    fee = fee;
    tx_hash = log.tx_hash;
    log_index = log.index;
    block_number = log.block_number;
  }

  unfoldable pub decode_current : Log → List (List ℕ) → Result OrderFilled
  unfolding from_words word set_bytes is_side
  decode_current log (topic ∷ order ∷ maker ∷ taker ∷ []) =
      let at = λ (i : ℕ). set_bytes (word log.content i) in
      if not (hash_hex topic ≟ order_filled_topic)
      then err unexpected_topic
      else if not (length log.content == 7 * 32)
      then err wrong_length
      else if not (is_side (at 0))
      then err invalid_side
      else ok (from_words log order maker taker (at 0) (at 1) (at 2) (at 3) (at 4))
  decode_current log _ = err wrong_topics

  -- `DecodeOrderFilled`.
  unfoldable pub decode_order_filled : Log → Result OrderFilled
  unfolding decode_current
  decode_order_filled log = decode_current log log.topics

  unfoldable pub finish_legacy :
      Log → List ℕ → List ℕ → List ℕ → ℕ → ℕ → ℕ → Option (ℕ × ℕ) → Result OrderFilled
  unfolding from_words
  finish_legacy log order maker taker maker_amount taker_amount fee none = err ambiguous_assets
  finish_legacy log order maker taker maker_amount taker_amount fee (some (side, token)) =
      ok (from_words log order maker taker side token maker_amount taker_amount fee)

  unfoldable pub decode_legacy : Log → List (List ℕ) → Result OrderFilled
  unfolding legacy_side finish_legacy word set_bytes
  decode_legacy log (topic ∷ order ∷ maker ∷ taker ∷ []) =
      let at = λ (i : ℕ). set_bytes (word log.content i) in
      if not (hash_hex topic ≟ order_filled_topic_legacy)
      then err unexpected_topic
      else if not (length log.content == 5 * 32)
      then err wrong_length
      else finish_legacy log order maker taker (at 2) (at 3) (at 4) (legacy_side (at 0) (at 1))
  decode_legacy log _ = err wrong_topics

  -- `DecodeOrderFilledLegacy`.
  unfoldable pub decode_order_filled_legacy : Log → Result OrderFilled
  unfolding decode_legacy
  decode_order_filled_legacy log = decode_legacy log log.topics

  unfoldable pub dispatch : Log → List (List ℕ) → Result OrderFilled
  dispatch log [] = err no_topics
  dispatch log (topic ∷ rest) =
      if hash_hex topic ≟ order_filled_topic
      then decode_order_filled log
      else if hash_hex topic ≟ order_filled_topic_legacy
      then decode_order_filled_legacy log
      else err unknown_topic

  -- `Decode`.
  unfoldable pub decode : Log → Result OrderFilled
  unfolding dispatch
  decode log = dispatch log log.topics
