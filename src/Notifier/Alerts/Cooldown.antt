-- ===== src/Notifier/Alerts/Cooldown.antt =====
-- One alert for a burst: a wallet's trades on one token and side.
use lobster_roll.Prelude.{
  ℕ, ◌+◌, ◌<◌, ◌≡◌, ◌⊎◌, inl, inr, refl, sym, ap, ◌∙◌, Bool, true, false, Option, none, some,
  GoString, ◌≟◌, bytes_eq, ◌++◌, eq_of_beq, Bool-cases, not, if_cases, arith,
}
use lobster_roll.Float.{Float}
use lobster_roll.Bus.{TradeDetected}
use lobster_roll.Dedup.TtlSet.{TtlSet}
use lobster_roll.Notifier.Positions.{MatchKind, Holding, Cache, match_trade}
use lobster_roll.Notifier.Format.{Display, WhaleStats, format_alert}
use lobster_roll.Notifier.Alerts.{
  Answers, Handler, Outcome, alerted, duplicate, cooled_down, trade_key, cooldown_key,
  position_prefix, add_to, resolve_market, has_ended, deliver, position_alert, fired, alert_for,
  maybe_position_alert, send_alert, lookup_stats, alert_trade, cool_down, handle,
}
use lobster_roll.Notifier.Alerts.Marks.{
  expiry, add_to-refused, add_to-keeps, remove_from-keeps, Reach, here, handles, signals,
  handle_consensus-sets,
}
use lobster_roll.Notifier.Alerts.Bursts.{alerted-tests, add_to-expiry}

module _ {ℓ} {F : Type ℓ} ⦃d : Float F⦄ (display : Display F) where
  position_alert-cooldown :
      (h : Handler F) (td : TradeDetected) (ws : WhaleStats F) (a : Answers F) (kind : MatchKind)
      (hold : Holding F)
      → (position_alert display h td ws a kind hold).cooldown ≡ h.cooldown
  unfolding position_alert deliver
  position_alert-cooldown h td ws a kind hold =
      let P : Handler F → Type 0 = λ g. g.cooldown ≡ h.cooldown in
      if_cases P (not (add_to h.dedup a.at_position (position_prefix ++ trade_key td)).1) _ _
        (λ _. refl) (λ _. if_cases P a.position_ok _ _ (λ _. refl) (λ _. refl))

  fired-cooldown :
      (h : Handler F) (td : TradeDetected) (ws : WhaleStats F) (a : Answers F)
      (o : Option (Holding F)) (kind : MatchKind) (fire : Bool)
      → (fired display h td ws a o kind fire).cooldown ≡ h.cooldown
  unfolding fired
  fired-cooldown h td ws a none kind fire = refl
  fired-cooldown h td ws a (some hold) kind fire =
      if_cases (λ (g : Handler F). g.cooldown ≡ h.cooldown) (not fire) _ _ (λ _. refl)
        (λ _. position_alert-cooldown h td ws a kind hold)

  alert_for-cooldown :
      (h : Handler F) (td : TradeDetected) (ws : WhaleStats F) (a : Answers F)
      (o : Option (Cache F))
      → (alert_for display h td ws a o).cooldown ≡ h.cooldown
  unfolding alert_for
  alert_for-cooldown h td ws a none = refl
  alert_for-cooldown h td ws a (some c) =
      let m = match_trade c td.token_id td.side td.wallet in
      fired-cooldown h td ws a m.holding m.kind m.fire

  -- A call that passes the cooldown keeps the marks of other keys, and its own if its send succeeds.
  alert_trade-cooldown :
      (h : Handler F) (td : TradeDetected) (a : Answers F) (k : GoString) (v : ℕ)
      → (cooldown_key td ≟ k) ≡ false ⊎ (a.alert_ok ≡ true)
      → expiry h.cooldown k ≡ some v
      → expiry (alert_trade display h td a).0.cooldown k ≡ some v
  unfolding alert_trade send_alert maybe_position_alert deliver
  alert_trade-cooldown h td a k v why e =
      let m = resolve_market td.token_id a.token in
      let ws = lookup_stats h td.wallet a.wallet in
      let P : Handler F × Outcome → Type 0 = λ r. expiry r.0.cooldown k ≡ some v in
      if_cases P (has_ended m a.unix) _ _ (λ _. e)
        (λ _.
          if_cases P a.alert_ok _ _
            (λ _.
              ap (λ o. expiry o k)
                (alert_for-cooldown (deliver h (format_alert display td m ws)) td ws a h.my_pos)
              ∙ e)
            (λ failed.
              remove_from-keeps h.cooldown k (cooldown_key td) v
                (elim why [ inl n ↦ n | inr ok ↦ absurd (ground (arith, ok, failed)) ]) e))

  handle-cooldown :
      (h : Handler F) (td : TradeDetected) (a : Answers F) (k : GoString) (v : ℕ)
      → a.at_cooldown < v
      → expiry h.cooldown k ≡ some v
      → expiry (handle display h td a).0.cooldown k ≡ some v
  unfolding handle cool_down
  handle-cooldown h td a k v early e =
      let j = cooldown_key td in
      let set = (add_to h.cooldown a.at_cooldown j).0 in
      let dedup = (add_to h.dedup a.at_dedup (trade_key td)).0 in
      let kept = add_to-keeps h.cooldown a.at_cooldown v k j early e in
      let P : Handler F × Outcome → Type 0 = λ r. expiry r.0.cooldown k ≡ some v in
      if_cases P (add_to h.dedup a.at_dedup (trade_key td)).1 _ _
        (λ _.
          if_cases P (add_to h.cooldown a.at_cooldown j).1 _ _
            (λ fresh.
              let different : (j ≟ k) ≡ false = elim (Bool-cases (j ≟ k)) [
                | inl same ↦ absurd (
                    ground (
                      arith,
                      fresh,
                      eq_of_beq j k same,
                      add_to-refused h.cooldown a.at_cooldown v k early e,
                    ))
                | inr n ↦ n
              ] in
              alert_trade-cooldown (record h { dedup = dedup; cooldown = set }) td a k v
                (inl different) kept)
            (λ _. kept))
        (λ _. e)

  Reach-cooldown :
      {v : ℕ} {h g : Handler F} (k : GoString)
      → expiry h.cooldown k ≡ some v
      → Reach display (λ a. a.at_cooldown < v) h g
      → expiry g.cooldown k ≡ some v
  Reach-cooldown k e here = e
  Reach-cooldown k e (handles {g = g} td a p r) =
      handle-cooldown g td a k _ p (Reach-cooldown k e r)
  Reach-cooldown k e (signals {g = g} sig a r) =
      ap (λ o. expiry o k) (handle_consensus-sets display g sig a).1 ∙ Reach-cooldown k e r

  handle-cools :
      (h : Handler F) (td : TradeDetected) (a : Answers F) (s : TtlSet GoString)
      → h.cooldown ≡ some s
      → 0 < s.ttl
      → (handle display h td a).1 ≡ alerted
      → expiry (handle display h td a).0.cooldown (cooldown_key td) ≡ some (a.at_cooldown + s.ttl)
  unfolding handle cool_down
  handle-cools h td a s e pos done =
      let (fresh, cool, ok) = alerted-tests display h td a done in
      let k = cooldown_key td in
      let v = a.at_cooldown + s.ttl in
      let set = (add_to h.cooldown a.at_cooldown k).0 in
      let dedup = (add_to h.dedup a.at_dedup (trade_key td)).0 in
      let mark : expiry set k ≡ some v =
        ap (λ o. expiry (add_to o a.at_cooldown k).0 k) e
        ∙ add_to-expiry s a.at_cooldown k pos
            (ap (λ o. (add_to o a.at_cooldown k).1) (sym e) ∙ cool) in
      rw (fresh, cool)
        (alert_trade-cooldown (record h { dedup = dedup; cooldown = set }) td a k v (inr ok) mark)

  cooled-silent :
      (h : Handler F) (td : TradeDetected) (b : Answers F)
      → (add_to h.cooldown b.at_cooldown (cooldown_key td)).1 ≡ false
      → ((handle display h td b).1 ≡ duplicate) ⊎ ((handle display h td b).1 ≡ cooled_down)
  unfolding handle cool_down
  cooled-silent h td b stale = ground (arith, stale)

  -- Once an alert is sent for a wallet's trade, no other trade of that wallet on the same token and side
  -- is alerted until the cooldown is over, whatever trades and signals come between and whether their
  -- sends fail or not: it is a duplicate or cooled down. The clock readings of the cooldown are before
  -- its end.
  pub handle-burst :
      (h g : Handler F) (td again : TradeDetected) (a b : Answers F) (s : TtlSet GoString)
      → h.cooldown ≡ some s
      → 0 < s.ttl
      → (handle display h td a).1 ≡ alerted
      → Reach display (λ x. x.at_cooldown < a.at_cooldown + s.ttl) (handle display h td a).0 g
      → cooldown_key again ≡ cooldown_key td
      → b.at_cooldown < a.at_cooldown + s.ttl
      → ((handle display g again b).1 ≡ duplicate) ⊎ ((handle display g again b).1 ≡ cooled_down)
  handle-burst h g td again a b s e pos done path same late =
      let k = cooldown_key td in
      let mark = Reach-cooldown k (handle-cools h td a s e pos done) path in
      cooled-silent g again b
        (rw same (add_to-refused g.cooldown b.at_cooldown (a.at_cooldown + s.ttl) k late mark))
