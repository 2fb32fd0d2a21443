-- ===== src/Notifier/Alerts/Marks.antt =====
-- What the handler's two sets remember through every step of a call.
use lobster_roll.Prelude.{
  ℕ, ◌<◌, ◌≡◌, ◌⊎◌, inl, inr, refl, Bool, true, false, Option, none, some, GoString, ◌≟◌, bytes_eq,
  ◌++◌, lookup, eq_of_beq, Bool-cases, not, if_cases, arith,
}
use lobster_roll.Float.{Float}
use lobster_roll.Bus.{TradeDetected, ConsensusSignal}
use lobster_roll.Dedup.TtlSet.{TtlSet}
use lobster_roll.Dedup.TtlSet.Expiry.{add-keeps, remove-keeps, live-refused}
use lobster_roll.Notifier.Positions.{MatchKind, Holding, Cache, match_trade}
use lobster_roll.Notifier.Format.{Display, Market, WhaleStats, format_alert}
use lobster_roll.Notifier.Alerts.{
  Answers, Handler, Outcome, trade_key, cooldown_key, consensus_key, position_prefix, add_to,
  remove_from, resolve_market, has_ended, deliver, position_alert, fired, alert_for,
  maybe_position_alert, send_alert, lookup_stats, alert_trade, cool_down, handle, send_consensus,
  handle_consensus,
}

-- When a set forgets a key.
unfoldable pub expiry : Option (TtlSet GoString) → GoString → Option ℕ
expiry none k = none
expiry (some s) k = lookup k s.exp

pub add_to-keeps :
    (o : Option (TtlSet GoString)) (now v : ℕ) (k j : GoString)
    → now < v
    → expiry o k ≡ some v
    → expiry (add_to o now j).0 k ≡ some v
unfolding expiry add_to
add_to-keeps none now v k j h e = cc
add_to-keeps (some s) now v k j h e = add-keeps s now v k j h e

pub add_to-refused :
    (o : Option (TtlSet GoString)) (now v : ℕ) (k : GoString)
    → now < v
    → expiry o k ≡ some v
    → (add_to o now k).1 ≡ false
unfolding expiry add_to
add_to-refused none now v k h e = absurd cc
add_to-refused (some s) now v k h e = live-refused s now v k h e

pub remove_from-keeps :
    (o : Option (TtlSet GoString)) (k j : GoString) (v : ℕ)
    → (j ≟ k) ≡ false
    → expiry o k ≡ some v
    → expiry (remove_from o j) k ≡ some v
unfolding expiry remove_from
remove_from-keeps none k j v n e = cc
remove_from-keeps (some s) k j v n e = remove-keeps s k j v n e

-- A key that no position alert has.
abbrev pub IsTradeKey : GoString → Type 0
IsTradeKey k = (s : GoString) → (position_prefix ++ s ≟ k) ≡ false

module _ {ℓ} {F : Type ℓ} ⦃d : Float F⦄ (display : Display F) where
  -- The key stays marked in both sets until its deadline, through every step of `handle`.
  position_alert-keeps :
      (h : Handler F) (td : TradeDetected) (ws : WhaleStats F) (a : Answers F) (kind : MatchKind)
      (hold : Holding F) (k : GoString) (v : ℕ)
      → IsTradeKey k
      → a.at_position < v
      → expiry h.dedup k ≡ some v
      → expiry (position_alert display h td ws a kind hold).dedup k ≡ some v
  unfolding position_alert deliver
  position_alert-keeps h td ws a kind hold k v other early e =
      let j = position_prefix ++ trade_key td in
      let kept = add_to-keeps h.dedup a.at_position v k j early e in
      let P : Handler F → Type 0 = λ g. expiry g.dedup k ≡ some v in
      if_cases P (not (add_to h.dedup a.at_position j).1) _ _ (λ _. kept)
        (λ _.
          if_cases P a.position_ok _ _ (λ _. kept)
            (λ _.
              remove_from-keeps (add_to h.dedup a.at_position j).0 k j v (other (trade_key td))
                kept))

  fired-keeps :
      (h : Handler F) (td : TradeDetected) (ws : WhaleStats F) (a : Answers F)
      (o : Option (Holding F)) (kind : MatchKind) (fire : Bool) (k : GoString) (v : ℕ)
      → IsTradeKey k
      → a.at_position < v
      → expiry h.dedup k ≡ some v
      → expiry (fired display h td ws a o kind fire).dedup k ≡ some v
  unfolding fired
  fired-keeps h td ws a none kind fire k v other early e = e
  fired-keeps h td ws a (some hold) kind fire k v other early e =
      if_cases (λ (g : Handler F). expiry g.dedup k ≡ some v) (not fire) _ _ (λ _. e)
        (λ _. position_alert-keeps h td ws a kind hold k v other early e)

  alert_for-keeps :
      (h : Handler F) (td : TradeDetected) (ws : WhaleStats F) (a : Answers F)
      (o : Option (Cache F)) (k : GoString) (v : ℕ)
      → IsTradeKey k
      → a.at_position < v
      → expiry h.dedup k ≡ some v
      → expiry (alert_for display h td ws a o).dedup k ≡ some v
  unfolding alert_for
  alert_for-keeps h td ws a none k v other early e = e
  alert_for-keeps h td ws a (some c) k v other early e =
      let m = match_trade c td.token_id td.side td.wallet in
      fired-keeps h td ws a m.holding m.kind m.fire k v other early e

  send_alert-keeps :
      (h : Handler F) (td : TradeDetected) (m : Market) (ws : WhaleStats F) (a : Answers F)
      (k : GoString) (v : ℕ)
      → IsTradeKey k
      → a.at_position < v
      → (trade_key td ≟ k) ≡ false ⊎ (a.alert_ok ≡ true)
      → expiry h.dedup k ≡ some v
      → expiry (send_alert display h td m ws a).0.dedup k ≡ some v
  unfolding send_alert deliver maybe_position_alert
  send_alert-keeps h td m ws a k v other early why e =
      if_cases (λ (r : Handler F × Outcome). expiry r.0.dedup k ≡ some v) a.alert_ok _ _
        (λ _.
          alert_for-keeps (deliver h (format_alert display td m ws)) td ws a h.my_pos k v other
            early e)
        (λ failed.
          remove_from-keeps h.dedup k (trade_key td) v
            (elim why [ inl n ↦ n | inr ok ↦ absurd (ground (arith, ok, failed)) ]) e)

  alert_trade-keeps :
      (h : Handler F) (td : TradeDetected) (a : Answers F) (k : GoString) (v : ℕ)
      → IsTradeKey k
      → a.at_position < v
      → (trade_key td ≟ k) ≡ false ⊎ (a.alert_ok ≡ true)
      → expiry h.dedup k ≡ some v
      → expiry (alert_trade display h td a).0.dedup k ≡ some v
  unfolding alert_trade
  alert_trade-keeps h td a k v other early why e =
      let m = resolve_market td.token_id a.token in
      if_cases (λ (r : Handler F × Outcome). expiry r.0.dedup k ≡ some v) (has_ended m a.unix) _ _
        (λ _. e)
        (λ _. send_alert-keeps h td m (lookup_stats h td.wallet a.wallet) a k v other early why e)

  pub cool_down-keeps :
      (h : Handler F) (td : TradeDetected) (a : Answers F) (k : GoString) (v : ℕ)
      → IsTradeKey k
      → a.at_position < v
      → (trade_key td ≟ k) ≡ false ⊎ (a.alert_ok ≡ true)
      → expiry h.dedup k ≡ some v
      → expiry (cool_down display h td a).0.dedup k ≡ some v
  unfolding cool_down
  cool_down-keeps h td a k v other early why e =
      let (set, fresh) = add_to h.cooldown a.at_cooldown (cooldown_key td) in
      if_cases (λ (r : Handler F × Outcome). expiry r.0.dedup k ≡ some v) fresh _ _
        (λ _. alert_trade-keeps (record h { cooldown = set }) td a k v other early why e) (λ _. e)

  pub handle-keeps :
      (h : Handler F) (td : TradeDetected) (a : Answers F) (k : GoString) (v : ℕ)
      → IsTradeKey k
      → a.at_dedup < v
      → a.at_position < v
      → expiry h.dedup k ≡ some v
      → expiry (handle display h td a).0.dedup k ≡ some v
  unfolding handle
  handle-keeps h td a k v other first early e =
      let j = trade_key td in
      let set = (add_to h.dedup a.at_dedup j).0 in
      let kept = add_to-keeps h.dedup a.at_dedup v k j first e in
      if_cases (λ (r : Handler F × Outcome). expiry r.0.dedup k ≡ some v)
        (add_to h.dedup a.at_dedup j).1 _ _
        (λ fresh.
          let different : (j ≟ k) ≡ false = elim (Bool-cases (j ≟ k)) [
            | inl same ↦ absurd (
                ground
                  (arith, fresh, eq_of_beq j k same, add_to-refused h.dedup a.at_dedup v k first e))
            | inr n ↦ n
          ] in
          cool_down-keeps (record h { dedup = set }) td a k v other early (inl different) kept)
        (λ _. kept)

  -- The handlers that calls lead to, each with answers that meet a condition.
  pub data Reach (P : Answers F → Type 0) (h : Handler F) : Handler F → Type ℓ where
    here : Reach P h h
    handles :
        {g : Handler F} (td : TradeDetected) (a : Answers F)
        → P a
        → Reach P h g
        → Reach P h (handle display g td a).0
    signals :
        {g : Handler F} (sig : ConsensusSignal F) (a : Answers F)
        → Reach P h g
        → Reach P h (handle_consensus display g sig a).0

  -- A consensus signal leaves the sets of the trades alone.
  pub handle_consensus-sets :
      (h : Handler F) (sig : ConsensusSignal F) (a : Answers F)
      → ((handle_consensus display h sig a).0.dedup ≡ h.dedup)
        × ((handle_consensus display h sig a).0.cooldown ≡ h.cooldown)
  unfolding handle_consensus send_consensus deliver
  handle_consensus-sets h sig a =
      let P : Handler F × Outcome → Type 0 =
        λ r. (r.0.dedup ≡ h.dedup) × (r.0.cooldown ≡ h.cooldown) in
      if_cases P (add_to h.consensus a.at_dedup (consensus_key sig)).1 _ _
        (λ _. if_cases P a.alert_ok _ _ (λ _. (refl, refl)) (λ _. (refl, refl))) (λ _. (refl, refl))
