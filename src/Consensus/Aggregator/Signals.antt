-- ===== src/Consensus/Aggregator/Signals.antt =====
-- What a published consensus signal says of the trades in the window.
use lobster_roll.Prelude.{
  ℕ, ◌-◌, ◌≤◌, ◌≡◌, ◌≢◌, Bool, true, false, [], ◌∷◌, GoString, bytes_eq, has, Distinct, length,
  arith, ◌++◌,
}
use lobster_roll.Float.{Float}
use lobster_roll.Bus.{TradeDetected}
use lobster_roll.Consensus.Window.{
  Store, Cohort, cohort_count, BigFloat, event_of, record_trade, cohort_of, prune, reap,
}
use lobster_roll.Consensus.Window.Cohorts.{traded_by, cohort_of-wallets}
use lobster_roll.Consensus.Window.Fired.{decide_fire-above}
use lobster_roll.Consensus.Aggregator.{Aggregator, signal_of, publish, handle}

module _ {ℓ} {F B : Type ℓ} ⦃d : Float F⦄ (big : BigFloat B F) where
  -- A replayed trade changes nothing and publishes nothing.
  pub handle-backfilled :
      (db_ok pub_ok : Bool) (now : ℕ) (td : TradeDetected) (a : Aggregator F)
      → td.backfilled ≡ true
      → handle big db_ok pub_ok now td a ≡ a
  unfolding handle
  handle-backfilled db_ok pub_ok now td a h = ground arith

  -- The cohort of a trade, over the events that the window keeps after it.
  abbrev pub cohort_at : ℕ → TradeDetected → Store F → Cohort F
  cohort_at now td s =
      let row = event_of big now td in
      cohort_of row.token_id row.side (now - s.window)
        (prune (now - s.window) (s.events ++ row ∷ []))

  -- If handling a trade publishes a signal, then it publishes one, the trade was not a replay, the
  -- signal names the trade's token and side and the distinct wallets with a trade of that token and
  -- side in the window, its count is their number and reaches the threshold, and it has the cohort's
  -- total, the window's length and the time.
  pub handle-published :
      (db_ok pub_ok : Bool) (now : ℕ) (td : TradeDetected) (a : Aggregator F) (w : GoString)
      → (handle big db_ok pub_ok now td a).published ≢ a.published
      → let c = cohort_at now td a.store in
        let row = event_of big now td in
        let events = prune (now - a.store.window) (a.store.events ++ row ∷ []) in
        (td.backfilled ≡ false)
        × ((handle big db_ok pub_ok now td a).published
            ≡ record {
              token_id = td.token_id;
              side = td.side;
              wallets = c.wallets;
              count = length c.wallets;
              combined_usd = c.combined_usd;
              window_secs = a.window_secs;
              observed_at = now;
            }
              ∷ a.published)
        × (has w c.wallets ≡ traded_by row.token_id row.side (now - a.store.window) w events)
        × Distinct c.wallets
        × (a.store.min_wallets ≤ length c.wallets)
  unfolding handle publish record_trade cohort_count signal_of
  handle-published db_ok pub_ok now td a w h =
      let row = event_of big now td in
      let cutoff = now - a.store.window in
      let events = prune cutoff (a.store.events ++ row ∷ []) in
      let (members, distinct, _) = cohort_of-wallets row.token_id row.side cutoff events w in
      let c = cohort_of row.token_id row.side cutoff events in
      let above =
        decide_fire-above a.store.min_wallets row.token_id row.side now (length c.wallets)
          (reap cutoff events a.store.fired) in
      (ground arith, ground arith, members, distinct, ground (arith, above))
