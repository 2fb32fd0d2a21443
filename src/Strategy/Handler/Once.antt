-- ===== src/Strategy/Handler/Once.antt =====
-- A source trade is vetted once.
use lobster_roll.Prelude.{
  ◌≡◌, ◌≢◌, refl, ◌∙◌, ap, Bool, false, List, Option, none, some, GoString, bytes_eq, arith,
}
use lobster_roll.Float.{Float}
use lobster_roll.Bus.{TradeDetected, OrderProposal}
use lobster_roll.Dedup.GenSet.{add}
use lobster_roll.Dedup.GenSet.Retention.{add-again}
use lobster_roll.Sizing.{Reason}
use lobster_roll.Strategy.Decide.{Numerals, Policy, Outcome, skip, propose, proposal_id, decide}
use lobster_roll.Strategy.Handler.{
  Fetched, fetch_failed, not_found, fetched, Stake, stats_failed, no_leader_stats, book_failed,
  no_book_mid, engine, Handler, publish, sized_by, with_stake, proposed, market_of, vet_trade,
  after_fetch, handle,
}

module _ {ℓ} {F : Type ℓ} ⦃d : Float F⦄ (numerals : Numerals F) (policy : Policy F)
    (allowlist : List GoString) where
  after_fetch-seen :
      (h : Handler F) (td : TradeDetected) (a : Fetched F) (stake : Option (Stake F))
      (accepted : Bool)
      → (add h.seen (proposal_id td)).1 ≡ false
      → (after_fetch numerals policy allowlist h td a stake accepted).published ≡ h.published
  unfolding after_fetch
  after_fetch-seen h td fetch_failed stake accepted e = refl
  after_fetch-seen h td not_found stake accepted e = ground arith
  after_fetch-seen h td (fetched m) stake accepted e = ground arith

  sized_by-seen :
      (h : Handler F) (ok : Bool) (o : OrderProposal F) (r : Reason) (x : F)
      → (sized_by h ok o r x).seen ≡ h.seen
  unfolding sized_by publish
  sized_by-seen h ok o r x = ground arith

  proposed-seen :
      (h : Handler F) (ok : Bool) (stake : Option (Stake F)) (o : Outcome F)
      → (proposed h ok stake o).seen ≡ h.seen
  unfolding proposed with_stake publish
  proposed-seen h ok stake (skip r) = refl
  proposed-seen h ok none (propose o) = ground arith
  proposed-seen h ok (some stats_failed) (propose o) = refl
  proposed-seen h ok (some no_leader_stats) (propose o) = refl
  proposed-seen h ok (some book_failed) (propose o) = refl
  proposed-seen h ok (some no_book_mid) (propose o) = refl
  proposed-seen h ok (some (engine v)) (propose o) = sized_by-seen h ok o v.reason v.stake

  vet_trade-seen :
      (h : Handler F) (td : TradeDetected) (a : Fetched F) (stake : Option (Stake F)) (ok : Bool)
      → (vet_trade numerals policy allowlist h td a stake ok).seen ≡ h.seen
  unfolding vet_trade
  vet_trade-seen h td fetch_failed stake ok = refl
  vet_trade-seen h td not_found stake ok = refl
  vet_trade-seen h td (fetched m) stake ok =
      proposed-seen h ok stake (decide numerals td (market_of numerals policy allowlist m) policy)

  after_fetch-records :
      (h : Handler F) (td : TradeDetected) (a : Fetched F) (stake : Option (Stake F)) (ok : Bool)
      → a ≢ fetch_failed
      → (after_fetch numerals policy allowlist h td a stake ok).seen
        ≡ (add h.seen (proposal_id td)).0
  unfolding after_fetch
  after_fetch-records h td fetch_failed stake ok ne = absurd (ne refl)
  after_fetch-records h td not_found stake ok ne = ground (
    arith,
    vet_trade-seen (record h { seen = (add h.seen (proposal_id td)).0 }) td not_found stake ok,
  )
  after_fetch-records h td (fetched m) stake ok ne = ground (
    arith,
    vet_trade-seen (record h { seen = (add h.seen (proposal_id td)).0 }) td (fetched m) stake ok,
  )

  -- Once the market data of a trade could be fetched, handling the same trade again publishes nothing,
  -- whatever was decided and whatever the services answer then: a trade has at most one proposal.
  pub handle-again :
      (h : Handler F) (td : TradeDetected) (a b : Fetched F) (stake stake_b : Option (Stake F))
      (ok ok_b : Bool)
      → a ≢ fetch_failed
      → let once = handle numerals policy allowlist h td a stake ok in
        (handle numerals policy allowlist once td b stake_b ok_b).published ≡ once.published
  unfolding handle
  handle-again h td a b stake stake_b ok ok_b ne =
      let once = after_fetch numerals policy allowlist h td a stake ok in
      let seen = after_fetch-records h td a stake ok ne in
      let again : (add once.seen (proposal_id td)).1 ≡ false =
        ap (λ s. (add s (proposal_id td)).1) seen ∙ add-again h.seen (proposal_id td) in
      ground (arith, after_fetch-seen once td b stake_b ok_b again)
