-- ===== src/Trader/Handler/AtMostOnce.antt =====
-- No proposal is handed to the exchange twice, whatever the outside answers.
use lobster_roll.Prelude.{
  ℕ, ◌+◌, ◌≤◌, ◌≡◌, refl, ◌⊎◌, inl, Bool, true, List, [], ◌∷◌, GoString, ◌≟◌, bytes_eq, eq_of_beq,
  arith, if◌then◌else◌, if_cases,
}
use lobster_roll.Float.{Float}
use lobster_roll.Bus.{OrderProposal, OrderDecision}
use lobster_roll.Trader.Caps.{
  allowed, per_trade_cap, per_day_cap, open_exposure_cap, Reason, reserve,
}
use lobster_roll.Trader.Placements.{
  IsPlaced, claim, claim-true, claim-IsPlaced, mark_result-IsPlaced, unclaim-IsPlaced,
}
use lobster_roll.Trader.ExecMode.{ExecutionPolicy, requires_approval}
use lobster_roll.Trader.Handler.{
  Trader, Answers, Placed, accepted, rejected, ambiguous, fail, mark, undo_claim, release_caps,
  settle, send, sign_and_place, after_reserve, reserve_caps, place, on_approved, on_proposed,
  set_halted, is_buy,
}

-- How often the order of a proposal was handed to the exchange.
pub times : GoString → List GoString → ℕ
times id [] = 0
times id (j ∷ js) = times id js + (if j ≟ id then 1 else 0)

module _ {ℓ} {F : Type ℓ} where
  -- No proposal was sent twice, and one that was sent has its row.
  abbrev pub Once : Trader F → Type 0
  Once t =
      (id : GoString) → (times id t.sent ≤ 1) × ((times id t.sent ≡ 0) ⊎ IsPlaced id t.placements)

  -- The proposal's row is there, and its order was not sent.
  abbrev Claimed : GoString → Trader F → Type 0
  Claimed id t = IsPlaced id t.placements × (times id t.sent ≡ 0)

module _ {ℓ} {F : Type ℓ} ⦃d : Float F⦄ where
  undo_claim-Once :
      (a : Answers) (id : GoString) (t : Trader F)
      → times id t.sent ≡ 0
      → Once t
      → Once (undo_claim a id t)
  unfolding undo_claim
  undo_claim-Once a id t z o j =
      ground (arith, o j, unclaim-IsPlaced id j t.placements, eq_of_beq id j)

  mark-Once :
      (a : Answers) (id order_id status : GoString) (t : Trader F)
      → Once t
      → Once (mark a id order_id status t)
  unfolding mark
  mark-Once a id order_id status t o j =
      ground (arith, o j, mark_result-IsPlaced id order_id status j t.placements)

  send-Once : (p : OrderProposal F) (t : Trader F) → Claimed p.id t → Once t → Once (send p t)
  unfolding send times
  send-Once p t c o j = ground (arith, o j, eq_of_beq p.id j)

  settle-Once :
      (a : Answers) (p : OrderProposal F) (r : Placed) (t : Trader F)
      → Once t
      → Once (settle a p r t)
  unfolding settle release_caps fail
  settle-Once a p (accepted order_id status) t o = mark-Once a p.id order_id status t o
  settle-Once a p rejected t o = mark-Once a p.id _ _ (release_caps a p t) o
  settle-Once a p ambiguous t o = mark-Once a p.id _ _ t o

  sign_and_place-Once :
      (a : Answers) (p : OrderProposal F) (t : Trader F)
      → Claimed p.id t
      → Once t
      → Once (sign_and_place a p t)
  unfolding sign_and_place fail release_caps
  sign_and_place-Once a p t c o =
      let undone = undo_claim-Once a p.id (release_caps a p t) c.1 o in
      if_cases Once a.sign_fails _ _ (λ _. undone)
        λ _.
          if_cases Once a.halted_again _ _ (λ _. undone)
            λ _. settle-Once a p a.place_order (send p t) (send-Once p t c o)

  after_reserve-Once :
      (a : Answers) (p : OrderProposal F) (r : Reason) (t : Trader F)
      → Claimed p.id t
      → Once t
      → Once (after_reserve a p r t)
  unfolding after_reserve fail
  after_reserve-Once a p allowed t c o = sign_and_place-Once a p t c o
  after_reserve-Once a p per_trade_cap t c o = o
  after_reserve-Once a p per_day_cap t c o = o
  after_reserve-Once a p open_exposure_cap t c o = o

  reserve_caps-Once :
      (a : Answers) (p : OrderProposal F) (t : Trader F)
      → Claimed p.id t
      → Once t
      → Once (reserve_caps a p t)
  unfolding reserve_caps
  reserve_caps-Once a p t c o =
      after_reserve-Once a p _
        (record t { caps = (reserve a.day_key p.size_usd (is_buy p) a.reserve_saved t.caps).0 }) c o

  -- The claim of `place`, as a state of its own.
  with_claim : OrderProposal F → Trader F → Trader F
  with_claim p t = record t { placements = (claim p.id t.placements).0 }

  with_claim-Once : (p : OrderProposal F) (t : Trader F) → Once t → Once (with_claim p t)
  unfolding with_claim
  with_claim-Once p t o j = ground (arith, o j, claim-IsPlaced p.id j t.placements)

  with_claim-Claimed :
      (p : OrderProposal F) (t : Trader F)
      → Once t
      → (claim p.id t.placements).1 ≡ true
      → Claimed p.id (with_claim p t)
  unfolding with_claim
  with_claim-Claimed p t o h = ground (arith, o p.id, claim-true p.id t.placements h)

  place-Once : (a : Answers) (p : OrderProposal F) (t : Trader F) → Once t → Once (place a p t)
  unfolding place fail with_claim
  place-Once a p t o =
      if_cases Once t.halt _ _ (λ _. o)
        λ _.
          if_cases Once a.claim_fails _ _ (λ _. o)
            λ _.
              if_cases Once (claim p.id t.placements).1 _ _
                (λ h.
                  reserve_caps-Once a p (with_claim p t) (with_claim-Claimed p t o h)
                    (with_claim-Once p t o))
                (λ _. o)

-- What reaches the trader: an approved or rejected decision, a proposal under the policy, or the
-- kill switch.
pub data Message {ℓ} (F : Type ℓ) : Type ℓ where
  decided : Answers → OrderDecision F → Message F
  proposed : ExecutionPolicy F → Answers → OrderProposal F → Message F
  control : Bool → Message F

module _ {ℓ} {F : Type ℓ} ⦃d : Float F⦄ where
  pub receive : Trader F → Message F → Trader F
  receive t (decided a dec) = on_approved a dec t
  receive t (proposed policy a p) = on_proposed policy a p t
  receive t (control h) = set_halted h t

  pub receive_all : Trader F → List (Message F) → Trader F
  receive_all t [] = t
  receive_all t (m ∷ ms) = receive_all (receive t m) ms

  receive-Once : (t : Trader F) (m : Message F) → Once t → Once (receive t m)
  unfolding receive on_approved on_proposed set_halted
  receive-Once t (decided a dec) o =
      if_cases Once dec.approved _ _ (λ _. place-Once a dec.proposal t o) (λ _. o)
  receive-Once t (proposed policy a p) o =
      if_cases Once (requires_approval policy p.size_usd) _ _ (λ _. o) (λ _. place-Once a p t o)
  receive-Once t (control h) o = o

  receive_all-Once : (ms : List (Message F)) (t : Trader F) → Once t → Once (receive_all t ms)
  unfolding receive_all
  receive_all-Once [] t o = o
  receive_all-Once (m ∷ ms) t o = receive_all-Once ms (receive t m) (receive-Once t m o)

  -- From a trader that has sent nothing, whatever its table of placements holds, after any messages
  -- with any answers of the database, the signer and the exchange, the order of each proposal was
  -- handed to the exchange at most once.
  pub times-receive_all-le :
      (t : Trader F) (ms : List (Message F)) (id : GoString)
      → t.sent ≡ []
      → times id (receive_all t ms).sent ≤ 1
  unfolding times
  times-receive_all-le t ms id none_sent =
      (receive_all-Once ms t (λ j. rw none_sent (omega arith, inl refl)) id).0
