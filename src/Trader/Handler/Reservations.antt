-- ===== src/Trader/Handler/Reservations.antt =====
-- What one placement does to the caps and to its claim, on every branch.
use lobster_roll.Prelude.{◌≡◌, ◌≢◌, ◌⊎◌, true, false, ◌∷◌, arith, cons_ne}
use lobster_roll.Float.{Float}
use lobster_roll.Bus.{OrderProposal}
use lobster_roll.Trader.Caps.{Caps, Reason, allowed, reserve, release}
use lobster_roll.Trader.Placements.{
  claim, unclaim, unclaim-claim, claim_again, claim_refused, claim-true,
}
use lobster_roll.Trader.Handler.{
  Trader, Answers, Placed, rejected, fail, mark, undo_claim, release_caps, settle, send,
  sign_and_place, after_reserve, reserve_caps, place, is_buy,
}

module _ {ℓ} {F : Type ℓ} ⦃d : Float F⦄ where
  -- The reservation that `place` asks for.
  abbrev pub reservation : Answers → OrderProposal F → Trader F → Caps F × Reason
  reservation a p t = reserve a.day_key p.size_usd (is_buy p) a.reserve_saved t.caps

  -- The caps once the exchange has answered: a rejected order gives its reservation back.
  abbrev pub caps_after : Answers → OrderProposal F → Placed → Caps F → Caps F
  caps_after a p rejected c = release p.size_usd (is_buy p) a.release_saved c
  caps_after a p _ c = c

  -- If `place` hands an order to the exchange, then the kill switch was off at both checks, the
  -- claim was new, the caps allowed the reservation and signing did not fail; one order was sent; and
  -- the reservation is given back if the exchange rejected the order, and kept if it accepted it or
  -- its answer is ambiguous.
  pub place_sent :
      (a : Answers) (p : OrderProposal F) (t : Trader F)
      → (place a p t).sent ≢ t.sent
      → (t.halt ≡ false)
        × (a.halted_again ≡ false)
        × ((claim p.id t.placements).1 ≡ true)
        × ((reservation a p t).1 ≡ allowed)
        × (a.sign_fails ≡ false)
        × ((place a p t).sent ≡ p.id ∷ t.sent)
        × ((place a p t).caps ≡ caps_after a p a.place_order (reservation a p t).0)
  unfolding place reserve_caps after_reserve sign_and_place settle send release_caps undo_claim mark
      fail
  place_sent a p t h = ground arith

  -- If `place` hands no order to the exchange, then the caps are as they were, or as a refused
  -- reservation leaves them, or an allowed reservation was given back.
  pub place_not_sent :
      (a : Answers) (p : OrderProposal F) (t : Trader F)
      → (place a p t).sent ≡ t.sent
      → ((place a p t).caps ≡ t.caps)
        ⊎ (((reservation a p t).1 ≢ allowed) × ((place a p t).caps ≡ (reservation a p t).0))
        ⊎ (((reservation a p t).1 ≡ allowed)
            × ((place a p t).caps
                ≡ release p.size_usd (is_buy p) a.release_saved (reservation a p t).0))
  unfolding place reserve_caps after_reserve sign_and_place settle send release_caps undo_claim mark
      fail
  place_not_sent a p t h = ground (arith, cons_ne p.id t.sent)

  -- While the kill switch is on, `place` sends nothing and leaves caps and claims alone.
  pub place_halted :
      (a : Answers) (p : OrderProposal F) (t : Trader F)
      → t.halt ≡ true
      → ((place a p t).sent ≡ t.sent)
        × ((place a p t).caps ≡ t.caps)
        × ((place a p t).placements ≡ t.placements)
  unfolding place fail
  place_halted a p t h = ground arith

  -- With the switch off, the claim new and the reservation allowed: if signing fails or the switch is
  -- on at the second check, and the claim can be undone, the proposal can be claimed again.
  pub place_retry :
      (a : Answers) (p : OrderProposal F) (t : Trader F)
      → t.halt ≡ false
      → a.claim_fails ≡ false
      → (claim p.id t.placements).1 ≡ true
      → (reservation a p t).1 ≡ allowed
      → (a.sign_fails ≡ true) ⊎ (a.halted_again ≡ true)
      → a.unclaim_fails ≡ false
      → (claim p.id (place a p t).placements).1 ≡ true
  unfolding place reserve_caps after_reserve sign_and_place release_caps undo_claim fail
  place_retry a p t h c n r f u = ground (
    arith,
    claim_again p.id (unclaim p.id (claim p.id t.placements).0),
    unclaim-claim p.id t.placements,
  )

  -- With the switch off and the claim new: if the caps refuse the reservation, nothing is sent, and
  -- the proposal keeps its claim, so that it cannot be claimed again.
  pub place_cap_refused :
      (a : Answers) (p : OrderProposal F) (t : Trader F)
      → t.halt ≡ false
      → a.claim_fails ≡ false
      → (claim p.id t.placements).1 ≡ true
      → (reservation a p t).1 ≢ allowed
      → ((place a p t).sent ≡ t.sent) × ((claim p.id (place a p t).placements).1 ≡ false)
  unfolding place reserve_caps after_reserve fail
  place_cap_refused a p t h c n r =
      ground (arith, claim_refused p.id (claim p.id t.placements).0, claim-true p.id t.placements)
