-- ===== src/Trader/Order.antt =====
-- services/trader/internal/order: an order for the exchange, the bytes that are hashed for its signature,
-- and the order that mirrors a proposal. Keccak-256 is a parameter; an address is its 20 bytes, and
-- `pad32` is on values that fit, as it panics on others. The conversion of an amount to an integer goes
-- through math/big's floats, a parameter.
pub mod Encoding
mod Tests
use lobster_roll.Prelude.{
  ℕ, suc, ◌-◌, Bool, true, false, not, List, [], ◌∷◌, ◌++◌, Option, none, some, GoString, codes,
  ◌≟◌, bytes_eq, nat_eq, length, replicate, leb, ◌==◌, ℤ, pos, negsuc, if◌then◌else◌, ◌&&◌, ◌+◌,
  ◌*◌,
}
use lobster_roll.Float.{Float, ◌≤?◌, ◌⊘◌, nought}
use lobster_roll.Bus.{OrderProposal}
use lobster_roll.Watcher.Decode.Words.{be_bytes}

abbrev pub chain_id : ℕ
chain_id = 137

pub record Order : Type 0 where
  pub salt : ℤ
  pub maker : List ℕ
  pub signer : List ℕ
  pub token_id : ℤ
  pub maker_amount : ℤ
  pub taker_amount : ℤ
  pub side : ℕ
  pub signature_type : ℕ
  pub timestamp : ℤ
  pub metadata : List ℕ
  pub builder : List ℕ

-- big.Int's Bytes are those of the magnitude.
unfoldable pub magnitude : ℤ → ℕ
magnitude (pos n) = n
magnitude (negsuc n) = suc n

unfoldable pub uint_word : ℤ → List ℕ
unfolding magnitude
uint_word n = be_bytes 32 (magnitude n)

unfoldable pub u8_word : ℕ → List ℕ
u8_word n = be_bytes 32 n

unfoldable pub addr_word : List ℕ → List ℕ
addr_word a = replicate 12 0 ++ a

unfoldable pub concat : List (List ℕ) → List ℕ
concat [] = []
concat (w ∷ ws) = w ++ concat ws

-- The encoded fields, after the type hash.
unfoldable pub fields : Order → List (List ℕ)
unfolding uint_word u8_word addr_word
fields o =
    uint_word o.salt
    ∷ addr_word o.maker
    ∷ addr_word o.signer
    ∷ uint_word o.token_id
    ∷ uint_word o.maker_amount
    ∷ uint_word o.taker_amount
    ∷ u8_word o.side
    ∷ u8_word o.signature_type
    ∷ uint_word o.timestamp
    ∷ o.metadata
    ∷ o.builder
    ∷ []

unfoldable pub order_type_string : GoString
order_type_string =
    codes
      "Order(uint256 salt,address maker,address signer,uint256 tokenId,uint256 makerAmount,uint256 takerAmount,uint8 side,uint8 signatureType,uint256 timestamp,bytes32 metadata,bytes32 builder)"

module _ (keccak : List ℕ → List ℕ) where
  unfoldable pub order_type_hash : List ℕ
  unfolding order_type_string
  order_type_hash = keccak order_type_string

  unfoldable pub domain_separator : List ℕ → List ℕ
  unfolding uint_word addr_word concat
  domain_separator verifying_contract = keccak (
      concat (
        keccak (
          codes
            "EIP712Domain(string name,string version,uint256 chainId,address verifyingContract)")
        ∷ keccak (codes "Polymarket CTF Exchange")
        ∷ keccak (codes "2")
        ∷ uint_word (pos chain_id)
        ∷ addr_word verifying_contract
        ∷ []))

  -- What structHash hashes.
  unfoldable pub struct_bytes : Order → List ℕ
  unfolding order_type_hash concat fields
  struct_bytes o = order_type_hash ++ concat (fields o)

  unfoldable pub struct_hash : Order → List ℕ
  unfolding struct_bytes
  struct_hash o = keccak (struct_bytes o)

  unfoldable pub digest : Order → List ℕ → List ℕ
  unfolding domain_separator struct_hash
  digest o verifying_contract =
      keccak (25 ∷ 1 ∷ domain_separator verifying_contract ++ struct_hash o)

  -- The recovery byte of go-ethereum's signature is 0 or 1, of EIP-712's 27 or 28.
  unfoldable pub with_recovery : List ℕ → List ℕ
  with_recovery [] = []
  with_recovery (v ∷ []) = (v + 27) ∷ []
  with_recovery (b ∷ c ∷ rest) = b ∷ with_recovery (c ∷ rest)

  -- `Sign`, with the key's signature of a digest.
  unfoldable pub sign : (List ℕ → Option (List ℕ)) → Order → List ℕ → Option (List ℕ)
  unfolding digest with_recovery
  sign by o verifying_contract = elim (by (digest o verifying_contract)) [
    | none ↦ none
    | some sig ↦ some (with_recovery sig)
  ]

-- What the code uses of strconv and math/big.
pub record Amounts {ℓ} (F : Type ℓ) : Type ℓ where
  pub parse_float : GoString → Option F
  pub parse_int : GoString → Option ℤ
  pub scale6 : F → ℤ

module _ {ℓ} {F : Type ℓ} ⦃d : Float F⦄ (amounts : Amounts F) where
  open amounts use {parse_float, parse_int, scale6}

  unfoldable pub sided : GoString → ℤ → ℤ → Order → Option Order
  sided side usdc shares o =
      if side ≟ codes "buy"
      then some (record o { side = 0; maker_amount = usdc; taker_amount = shares })
      else if side ≟ codes "sell"
      then some (record o { side = 1; maker_amount = shares; taker_amount = usdc })
      else none

  unfoldable pub blank : List ℕ → List ℕ → ℕ → ℤ → ℤ → ℤ → Order
  blank maker signer sig_type salt timestamp token = record {
    salt = salt;
    maker = maker;
    signer = signer;
    token_id = token;
    maker_amount = pos 0;
    taker_amount = pos 0;
    side = 0;
    signature_type = sig_type;
    timestamp = timestamp;
    metadata = replicate 32 0;
    builder = replicate 32 0;
  }

  unfoldable pub priced :
      OrderProposal F → List ℕ → List ℕ → ℕ → ℤ → ℤ → Option F → Option ℤ → Option Order
  unfolding sided blank
  priced p maker signer sig_type salt timestamp none token = none
  priced p maker signer sig_type salt timestamp (some price) none = none
  priced p maker signer sig_type salt timestamp (some price) (some token) =
      if price ≤? nought
      then none
      else if p.size_usd ≤? nought
      then none
      else sided p.side (scale6 p.size_usd) (scale6 (p.size_usd ⊘ price))
          (blank maker signer sig_type salt timestamp token)

  -- `FromProposal`; none for an error.
  unfoldable pub from_proposal : OrderProposal F → List ℕ → List ℕ → ℕ → ℤ → ℤ → Option Order
  unfolding priced
  from_proposal p maker signer sig_type salt timestamp =
      priced p maker signer sig_type salt timestamp (parse_float p.limit_price)
        (parse_int p.token_id)
