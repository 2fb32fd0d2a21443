-- ===== src/Notifier/Alerts/Bursts.antt =====
-- One alert for a fill, and one for a burst, whatever calls come between.
use lobster_roll.Prelude.{
  ℕ, ◌+◌, ◌<◌, ◌≡◌, inr, refl, sym, ap, ◌∙◌, true, false, some, GoString, codes, bytes_beq,
  bytes_eq, ◌++◌, if_cases, arith,
}
use lobster_roll.Float.{Float}
use lobster_roll.Bus.{TradeDetected}
use lobster_roll.Dedup.TtlSet.{TtlSet}
use lobster_roll.Dedup.TtlSet.Expiry.{add-lookup}
use lobster_roll.Notifier.Format.{Display}
use lobster_roll.Notifier.Alerts.{
  Answers, Handler, Outcome, alerted, duplicate, trade_key, cooldown_key, position_prefix, add_to,
  send_alert, alert_trade, cool_down, handle,
}
use lobster_roll.Notifier.Alerts.Marks.{
  expiry, IsTradeKey, add_to-refused, cool_down-keeps, handle-keeps, Reach, here, handles, signals,
  handle_consensus-sets,
}

pub add_to-expiry :
    (s : TtlSet GoString) (now : ℕ) (k : GoString)
    → 0 < s.ttl
    → (add_to (some s) now k).1 ≡ true
    → expiry (add_to (some s) now k).0 k ≡ some (now + s.ttl)
unfolding add_to expiry
add_to-expiry s now k pos fresh = add-lookup s now k pos fresh

-- A fill's key begins with the hash of its transaction.
hash_key :
    (td : TradeDetected) (rest : GoString)
    → td.tx_hash ≡ codes "0x" ++ rest
    → IsTradeKey (trade_key td)
unfolding trade_key position_prefix bytes_beq
hash_key td rest e s = rw e refl

module _ {ℓ} {F : Type ℓ} ⦃d : Float F⦄ (display : Display F) where
  -- The clocks of the trades' set stand before a deadline.
  abbrev pub IsEarly : ℕ → Answers F → Type 0
  IsEarly deadline a = (a.at_dedup < deadline) × (a.at_position < deadline)

  Reach-keeps :
      {v : ℕ} {h g : Handler F} (k : GoString)
      → IsTradeKey k
      → expiry h.dedup k ≡ some v
      → Reach display (IsEarly v) h g
      → expiry g.dedup k ≡ some v
  Reach-keeps k other e here = e
  Reach-keeps k other e (handles {g = g} td a (p, q) r) =
      handle-keeps display g td a k _ other p q (Reach-keeps k other e r)
  Reach-keeps k other e (signals {g = g} sig a r) =
      ap (λ o. expiry o k) (handle_consensus-sets display g sig a).0 ∙ Reach-keeps k other e r

  -- What an alert that was sent tells of its call.
  pub alerted-tests :
      (h : Handler F) (td : TradeDetected) (a : Answers F)
      → (handle display h td a).1 ≡ alerted
      → ((add_to h.dedup a.at_dedup (trade_key td)).1 ≡ true)
        × ((add_to h.cooldown a.at_cooldown (cooldown_key td)).1 ≡ true)
        × (a.alert_ok ≡ true)
  unfolding handle cool_down alert_trade send_alert
  alerted-tests h td a done = ground (arith, done)

  handle-marks :
      (h : Handler F) (td : TradeDetected) (a : Answers F) (s : TtlSet GoString)
      → h.dedup ≡ some s
      → 0 < s.ttl
      → IsTradeKey (trade_key td)
      → a.at_position < a.at_dedup + s.ttl
      → (handle display h td a).1 ≡ alerted
      → expiry (handle display h td a).0.dedup (trade_key td) ≡ some (a.at_dedup + s.ttl)
  unfolding handle
  handle-marks h td a s e pos other early done =
      let (fresh, cool, ok) = alerted-tests h td a done in
      let k = trade_key td in
      let v = a.at_dedup + s.ttl in
      let mark : expiry (add_to h.dedup a.at_dedup k).0 k ≡ some v =
        ap (λ o. expiry (add_to o a.at_dedup k).0 k) e
        ∙ add_to-expiry s a.at_dedup k pos (ap (λ o. (add_to o a.at_dedup k).1) (sym e) ∙ fresh) in
      if_cases (λ (r : Handler F × Outcome). expiry r.0.dedup k ≡ some v)
        (add_to h.dedup a.at_dedup k).1 _ _
        (λ _.
          cool_down-keeps display (record h { dedup = (add_to h.dedup a.at_dedup k).0 }) td a k v
            other early (inr ok) mark)
        (λ stale. absurd (ground (arith, fresh, stale)))

  refused-silent :
      (h : Handler F) (td : TradeDetected) (b : Answers F)
      → (add_to h.dedup b.at_dedup (trade_key td)).1 ≡ false
      → ((handle display h td b).1 ≡ duplicate) × ((handle display h td b).0.sent ≡ h.sent)
  unfolding handle
  refused-silent h td b stale = rw stale (refl, refl)

  -- Once the alert of a fill is sent, the same fill is a duplicate that sends nothing, until the time to
  -- live is over, in every handler that other calls lead to before then: trades and consensus signals,
  -- whether their sends fail or not. The fill's transaction hash begins with 0x, and the clock readings
  -- of the sets are before the deadline.
  pub handle-Reach :
      (h g : Handler F) (td : TradeDetected) (a b : Answers F) (s : TtlSet GoString)
      (rest : GoString)
      → td.tx_hash ≡ codes "0x" ++ rest
      → h.dedup ≡ some s
      → 0 < s.ttl
      → (handle display h td a).1 ≡ alerted
      → a.at_position < a.at_dedup + s.ttl
      → Reach display (IsEarly (a.at_dedup + s.ttl)) (handle display h td a).0 g
      → b.at_dedup < a.at_dedup + s.ttl
      → ((handle display g td b).1 ≡ duplicate) × ((handle display g td b).0.sent ≡ g.sent)
  handle-Reach h g td a b s rest x e pos done early path late =
      let k = trade_key td in
      let other = hash_key td rest x in
      let mark = Reach-keeps k other (handle-marks h td a s e pos other early done) path in
      refused-silent g td b (add_to-refused g.dedup b.at_dedup (a.at_dedup + s.ttl) k late mark)
