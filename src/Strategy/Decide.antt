-- ===== src/Strategy/Decide.antt =====
-- services/strategy/internal/decide: the filters, the slippage guard and the size of a proposal.
-- `strconv.ParseFloat`, `strconv.FormatFloat` and `math.Round` are parameters, as they work on floats;
-- the reason strings are the constructors of `Reason`.
pub mod Gates
pub mod Tests
use lobster_roll.Prelude.{
  ℕ, suc, ◌-◌, Bool, true, false, not, List, [], ◌∷◌, ◌++◌, Option, none, some, GoString, codes,
  ◌≟◌, bytes_eq, leb, length, take, drop, decimal, if◌then◌else◌, ◌&&◌, ◌||◌,
}
use lobster_roll.Float.{Float, ◌<?◌, ◌≤?◌, ◌⊕◌, ◌⊖◌, ◌⊗◌, ◌⊘◌, nought}
use lobster_roll.Bus.{TradeDetected, OrderProposal}

-- What the code uses of strconv and math.
pub record Numerals {ℓ} (F : Type ℓ) : Type ℓ where
  pub parse_float : GoString → Option F
  pub format_float : F → GoString
  pub round : F → F

-- SizingMode, with any other number.
pub data SizingMode : Type 0 where
  sizing_fixed sizing_proportional : SizingMode
  sizing_other : ℕ → SizingMode

pub record Policy {ℓ} (F : Type ℓ) : Type ℓ where
  pub sizing : SizingMode
  pub fixed_usd : F
  pub proportion : F
  pub min_size_usd : F
  pub max_size_usd : F
  pub max_slippage : F
  pub min_liquidity_usd : F

pub record Market {ℓ} (F : Type ℓ) : Type ℓ where
  pub current_price : F
  pub liquidity_usd : F
  pub condition_id : GoString
  pub active : Bool
  pub allowed : Bool

pub data Reason : Type 0 where
  invalid_trade_price invalid_trade_size non_positive unknown_side market_inactive : Reason
  not_in_allowlist insufficient_liquidity no_live_price moved_beyond_slippage : Reason
  sizing_failed below_min limit_out_of_range : Reason

pub data Outcome {ℓ} (F : Type ℓ) : Type ℓ where
  skip : Reason → Outcome F
  propose : OrderProposal F → Outcome F

pub short_wallet : GoString → GoString
short_wallet w =
    if leb (length w) 12 then w else take 6 w ++ 226 ∷ 128 ∷ 166 ∷ drop (length w - 4) w

pub proposal_id : TradeDetected → GoString
proposal_id t = codes "prop-" ++ t.tx_hash ++ b'-' ∷ decimal t.log_index ++ b'-' ∷ t.wallet

module _ {ℓ} {F : Type ℓ} ⦃d : Float F⦄ (numerals : Numerals F) where
  open numerals use {parse_float, format_float, round}

  pub clamp_size : Policy F → F → F
  clamp_size p size =
      if nought <? p.max_size_usd && p.max_size_usd <? size then p.max_size_usd else size

  pub proportional : Policy F → Option F → Option F → Option F
  unfolding clamp_size
  proportional p none size = none
  proportional p (some price) none = none
  proportional p (some price) (some size) = some (clamp_size p (size ⊗ price ⊗ p.proportion))

  -- `SizeUSD`; none for an error.
  pub size_by : SizingMode → TradeDetected → Policy F → Option F
  unfolding clamp_size proportional
  size_by sizing_fixed t p = some (clamp_size p p.fixed_usd)
  size_by sizing_proportional t p = proportional p (parse_float t.price) (parse_float t.size)
  size_by (sizing_other n) t p = none

  pub size_usd : TradeDetected → Policy F → Option F
  unfolding size_by
  size_usd t p = size_by p.sizing t p

  pub epsilon : F
  epsilon = d.lit 1 1_000_000_000

  pub within_slippage : GoString → F → F → F → Bool
  unfolding epsilon
  within_slippage side whale_price current_price max_slippage =
      if side ≟ codes "buy"
      then current_price ≤? whale_price ⊕ max_slippage ⊕ epsilon
      else if side ≟ codes "sell"
      then whale_price ⊖ max_slippage ⊖ epsilon ≤? current_price
      else false

  pub limit_price : GoString → F → F → Option F
  limit_price side whale_price max_slippage =
      let raw =
        if side ≟ codes "buy" then whale_price ⊕ max_slippage else whale_price ⊖ max_slippage in
      let v = round (raw ⊗ d.of_ℕ 1000) ⊘ d.of_ℕ 1000 in
      if v <? d.lit 1 1000 || d.lit 999 1000 <? v then none else some v

  -- The outcome, once the size and the limit are known.
  pub finish : TradeDetected → Policy F → Option F → Option F → Outcome F
  unfolding proposal_id short_wallet
  finish t p none limit = skip sizing_failed
  finish t p (some size) none =
      if size <? p.min_size_usd then skip below_min else skip limit_out_of_range
  finish t p (some size) (some limit) =
      if size <? p.min_size_usd
      then skip below_min
      else propose (record {
        id = proposal_id t;
        source_trade = t;
        token_id = t.token_id;
        side = t.side;
        limit_price = format_float limit;
        size_usd = size;
        reason = codes "mirror whale " ++ short_wallet t.wallet;
      })

  pub vet : TradeDetected → Market F → Policy F → F → F → Outcome F
  unfolding within_slippage limit_price size_usd finish
  vet t m p whale_price whale_size =
      if whale_price ≤? nought || whale_size ≤? nought
      then skip non_positive
      else if not (t.side ≟ codes "buy") && not (t.side ≟ codes "sell")
      then skip unknown_side
      else if not m.active
      then skip market_inactive
      else if not m.allowed
      then skip not_in_allowlist
      else if m.liquidity_usd <? p.min_liquidity_usd
      then skip insufficient_liquidity
      else if m.current_price ≤? nought
      then skip no_live_price
      else if not (within_slippage t.side whale_price m.current_price p.max_slippage)
      then skip moved_beyond_slippage
      else finish t p (size_usd t p) (limit_price t.side whale_price p.max_slippage)

  pub parsed : TradeDetected → Market F → Policy F → Option F → Option F → Outcome F
  unfolding vet
  parsed t m p none size = skip invalid_trade_price
  parsed t m p (some price) none = skip invalid_trade_size
  parsed t m p (some price) (some size) = vet t m p price size

  -- `Decide`.
  pub decide : TradeDetected → Market F → Policy F → Outcome F
  unfolding parsed
  decide t m p = parsed t m p (parse_float t.price) (parse_float t.size)
