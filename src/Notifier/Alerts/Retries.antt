-- ===== src/Notifier/Alerts/Retries.antt =====
-- A send that failed can be tried again.
use lobster_roll.Prelude.{
  ℕ, ◌≡◌, refl, Bool-cases, if_cases, inl, inr, true, false, Option, none, some, GoString, bytes_eq,
  arith,
}
use lobster_roll.Float.{Float}
use lobster_roll.Bus.{TradeDetected, ConsensusSignal}
use lobster_roll.Dedup.TtlSet.{TtlSet}
use lobster_roll.Dedup.TtlSet.Expiry.{add-remove}
use lobster_roll.Notifier.Format.{Display, Market, WhaleStats}
use lobster_roll.Notifier.Alerts.{
  Answers, Handler, Outcome, send_failed, alerted, trade_key, cooldown_key, consensus_key, add_to,
  remove_from, resolve_market, has_ended, send_alert, lookup_stats, alert_trade, cool_down, handle,
  send_consensus, handle_consensus,
}

add_to-remove_from :
    (o : Option (TtlSet GoString)) (now : ℕ) (k : GoString)
    → (add_to (remove_from o k) now k).1 ≡ true
unfolding add_to remove_from
add_to-remove_from none now k = refl
add_to-remove_from (some s) now k = (add-remove s now k k).0

module _ {ℓ} {F : Type ℓ} ⦃d : Float F⦄ (display : Display F) where
  -- What a failed send leaves behind.
  Undone : Handler F → Handler F → TradeDetected → Type 0
  Undone h g td =
      ((now : ℕ) → (add_to g.dedup now (trade_key td)).1 ≡ true)
      × ((now : ℕ) → (add_to g.cooldown now (cooldown_key td)).1 ≡ true)
      × (g.sent ≡ h.sent)

  send_alert-Undone :
      (h : Handler F) (td : TradeDetected) (m : Market) (ws : WhaleStats F) (a : Answers F)
      → (send_alert display h td m ws a).1 ≡ send_failed
      → Undone h (send_alert display h td m ws a).0 td
  unfolding send_alert Undone
  send_alert-Undone h td m ws a f = elim (Bool-cases a.alert_ok) [
    | inl e ↦ absurd (ground (arith, f, e))
    | inr e ↦ rw e (
      λ now. add_to-remove_from h.dedup now (trade_key td),
      λ now. add_to-remove_from h.cooldown now (cooldown_key td),
      refl,
    )
  ]

  handle-retried :
      (h : Handler F) (td : TradeDetected) (b : Answers F)
      → (add_to h.dedup b.at_dedup (trade_key td)).1 ≡ true
      → (add_to h.cooldown b.at_cooldown (cooldown_key td)).1 ≡ true
      → has_ended (resolve_market td.token_id b.token) b.unix ≡ false
      → b.alert_ok ≡ true
      → (handle display h td b).1 ≡ alerted
  unfolding handle cool_down alert_trade send_alert
  handle-retried h td b p q r s = rw (p, q, r, s) refl

  handle-Undone :
      (h : Handler F) (td : TradeDetected) (a : Answers F)
      → (handle display h td a).1 ≡ send_failed
      → Undone h (handle display h td a).0 td
  unfolding handle cool_down alert_trade Undone
  handle-Undone h td a =
      let P : Handler F × Outcome → Type 0 = λ r. r.1 ≡ send_failed → Undone h r.0 td in
      let entered = record h {
        dedup = (add_to h.dedup a.at_dedup (trade_key td)).0;
        cooldown = (add_to h.cooldown a.at_cooldown (cooldown_key td)).0;
      } in
      let market = resolve_market td.token_id a.token in
      if_cases P (add_to h.dedup a.at_dedup (trade_key td)).1 _ _
        (λ _.
          if_cases P (add_to h.cooldown a.at_cooldown (cooldown_key td)).1 _ _
            (λ _.
              if_cases P (has_ended market a.unix) _ _ (λ _ f. absurd cc)
                (λ _.
                  send_alert-Undone entered td market (lookup_stats entered td.wallet a.wallet) a))
            (λ _ f. absurd cc))
        (λ _ f. absurd cc)

  -- A send that fails delivers nothing, and is not the end of the alert: when the trade comes again with
  -- no call between, at whatever time, its alert is sent, if that send succeeds and the market is not
  -- known to have ended.
  pub handle-retries :
      (h : Handler F) (td : TradeDetected) (a b : Answers F)
      → (handle display h td a).1 ≡ send_failed
      → has_ended (resolve_market td.token_id b.token) b.unix ≡ false
      → b.alert_ok ≡ true
      → ((handle display h td a).0.sent ≡ h.sent)
        × ((handle display (handle display h td a).0 td b).1 ≡ alerted)
  unfolding Undone
  handle-retries h td a b f live ok =
      let (fresh, cool, same) = handle-Undone h td a f in
      (
        same,
        handle-retried (handle display h td a).0 td b (fresh b.at_dedup) (cool b.at_cooldown) live
            ok,
      )

  -- A consensus signal whose send fails delivers nothing, and is sent when it comes again with no call
  -- between, if that send succeeds.
  pub handle_consensus-retries :
      (h : Handler F) (sig : ConsensusSignal F) (a b : Answers F)
      → (handle_consensus display h sig a).1 ≡ send_failed
      → b.alert_ok ≡ true
      → ((handle_consensus display h sig a).0.sent ≡ h.sent)
        × ((handle_consensus display (handle_consensus display h sig a).0 sig b).1 ≡ alerted)
  unfolding handle_consensus send_consensus
  handle_consensus-retries h sig a b f ok =
      elim (Bool-cases (add_to h.consensus a.at_dedup (consensus_key sig)).1) [
        | inl p ↦ elim (Bool-cases a.alert_ok) [
          | inl e ↦ absurd (ground (arith, f, e, p))
          | inr e ↦
              rw
                (
                  p,
                  e,
                  add_to-remove_from (add_to h.consensus a.at_dedup (consensus_key sig)).0
                      b.at_dedup (consensus_key sig),
                  ok,
                )
                (refl, refl)
        ]
        | inr p ↦ absurd (ground (arith, f, p))
      ]
