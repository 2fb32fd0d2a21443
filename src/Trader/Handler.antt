-- ===== src/Trader/Handler.antt =====
-- services/trader/internal/handler/handler.go, with the kill switch of internal/halt/halt.go. What
-- the signer, the exchange, the database and the bus answer in one call is its `Answers`; messages
-- follow one another, although the code may overlap them; metrics and logs are left out.
pub mod AtMostOnce
pub mod Reservations
mod Tests
use lobster_roll.Prelude.{
  ◌≡◌, Bool, true, false, Option, none, some, List, [], ◌∷◌, GoString, codes, ◌≟◌, bytes_eq,
  if◌then◌else◌,
}
use lobster_roll.Float.{Float}
use lobster_roll.Bus.{OrderProposal, OrderDecision}
use lobster_roll.Trader.Caps.{Caps, allowed, Reason, reserve, release}
use lobster_roll.Trader.Placements.{Placements, claim, unclaim, mark_result}
use lobster_roll.Trader.ExecMode.{ExecutionPolicy, requires_approval}

pub data Failure : Type 0 where
  no_failure halted claim_error cap_refused sign_error place_rejected place_ambiguous : Failure

-- bus.OrderResult; `failure` stands for the text of Err.
pub record OrderResult : Type 0 where
  pub proposal_id : GoString
  pub order_id : GoString
  pub filled : Bool
  pub status : GoString
  pub failure : Failure

-- What `PlaceOrder` returns: an accepted order, clob.ErrRejected, or any other error.
pub data Placed : Type 0 where
  accepted : GoString → GoString → Placed
  rejected : Placed
  ambiguous : Placed

-- The answers of the outside in one call, in the order of the code.
pub record Answers : Type 0 where
  pub claim_fails : Bool
  pub day_key : GoString
  pub reserve_saved : Bool
  pub sign_fails : Bool
  pub halted_again : Bool
  pub place_order : Placed
  pub release_saved : Bool
  pub unclaim_fails : Bool
  pub mark_fails : Bool

pub record Trader {ℓ} (F : Type ℓ) : Type ℓ where
  pub halt : Bool
  pub caps : Caps F
  pub placements : Placements
  -- The proposals whose orders were handed to the exchange, and the results published, latest first.
  pub sent : List GoString
  pub results : List OrderResult

module _ {ℓ} {F : Type ℓ} where
  -- halt.State.
  pub set_halted : Bool → Trader F → Trader F
  set_halted h t = record t { halt = h }

  pub fail : OrderProposal F → Failure → Trader F → Trader F
  fail p reason t = record t { results = result ∷ t.results }
    where
      result : OrderResult
      result = record {
        proposal_id = p.id;
        order_id = codes "";
        filled = false;
        status = codes "";
        failure = reason;
      }

  pub mark : Answers → GoString → GoString → GoString → Trader F → Trader F
  mark a id order_id status t =
      if a.mark_fails
      then t
      else record t { placements = mark_result id order_id status t.placements }

  pub undo_claim : Answers → GoString → Trader F → Trader F
  undo_claim a id t =
      if a.unclaim_fails then t else record t { placements = unclaim id t.placements }

  pub is_buy : OrderProposal F → Bool
  is_buy p = p.side ≟ codes "buy"

abbrev pub status_matched : GoString
status_matched = codes "matched"

module _ {ℓ} {F : Type ℓ} ⦃d : Float F⦄ where
  pub release_caps : Answers → OrderProposal F → Trader F → Trader F
  release_caps a p t = record t { caps = release p.size_usd (is_buy p) a.release_saved t.caps }

  -- Step 6, after the order was handed to the exchange.
  pub settle : Answers → OrderProposal F → Placed → Trader F → Trader F
  settle a p (accepted order_id status) t =
      let t' = mark a p.id order_id status t in
      record t' {
        results =
            record {
              proposal_id = p.id;
              order_id = order_id;
              filled = status ≟ status_matched;
              status = status;
              failure = no_failure;
            }
            ∷ t'.results;
      }
  settle a p rejected t =
      fail p place_rejected (mark a p.id (codes "") (codes "rejected") (release_caps a p t))
  settle a p ambiguous t = fail p place_ambiguous (mark a p.id (codes "") (codes "unknown") t)

  -- The order goes out.
  pub send : OrderProposal F → Trader F → Trader F
  send p t = record t { sent = p.id ∷ t.sent }

  -- Steps 4 to 6, with the reservation made.
  pub sign_and_place : Answers → OrderProposal F → Trader F → Trader F
  sign_and_place a p t =
      if a.sign_fails
      then fail p sign_error (undo_claim a p.id (release_caps a p t))
      else if a.halted_again
      then fail p halted (undo_claim a p.id (release_caps a p t))
      else settle a p a.place_order (send p t)

  -- Step 3, with the claim made.
  pub after_reserve : Answers → OrderProposal F → Reason → Trader F → Trader F
  after_reserve a p allowed t = sign_and_place a p t
  after_reserve a p r t = fail p cap_refused t

  pub reserve_caps : Answers → OrderProposal F → Trader F → Trader F
  reserve_caps a p t =
      let (caps, reason) = reserve a.day_key p.size_usd (is_buy p) a.reserve_saved t.caps in
      after_reserve a p reason (record t { caps = caps })

  pub place : Answers → OrderProposal F → Trader F → Trader F
  place a p t =
      if t.halt
      then fail p halted t
      else if a.claim_fails
      then fail p claim_error t
      else (let (placements, claimed) = claim p.id t.placements in
          if claimed then reserve_caps a p (record t { placements = placements }) else t)

  pub on_approved : Answers → OrderDecision F → Trader F → Trader F
  on_approved a dec t = if dec.approved then place a dec.proposal t else t

  pub on_proposed : ExecutionPolicy F → Answers → OrderProposal F → Trader F → Trader F
  on_proposed policy a p t = if requires_approval policy p.size_usd then t else place a p t
