-- ===== src/Notifier/Alerts/Keys.antt =====
-- What a cooldown key tells of a trade.
use lobster_roll.Prelude.{
  ℕ, ◌≡◌, refl, ap, false, List, [], ◌∷◌, ◌++◌, bytes_eq, nat_eq, has, drop, to_lower, arith,
}
use lobster_roll.Bus.{TradeDetected}
use lobster_roll.Notifier.Positions.{Cache, equal_fold, match_trade}
use lobster_roll.Notifier.Alerts.{cooldown_key}

-- A separator that neither first part has tells where it ends.
pub split_unique :
    (sep : ℕ) (a b x y : List ℕ)
    → has sep a ≡ false
    → has sep b ≡ false
    → a ++ sep ∷ x ≡ b ++ sep ∷ y
    → (a ≡ b) × (x ≡ y)
unfolding has
split_unique sep [] [] x y p q e = ground arith
split_unique sep [] (c ∷ b) x y p q e = absurd (ground arith)
split_unique sep (c ∷ a) [] x y p q e = absurd (ground arith)
split_unique sep (c ∷ a) (d ∷ b) x y p q e = ground (arith, split_unique sep a b x y)

to_lower-has : (s : List ℕ) → has b':' s ≡ false → has b':' (to_lower s) ≡ false
unfolding has to_lower
to_lower-has [] h = refl
to_lower-has (c ∷ s) h = ground (arith, to_lower-has s)

-- The parts of a key whose wallet and token have no colon.
pub cooldown_key_parts :
    (t u : TradeDetected)
    → has b':' t.wallet ≡ false
    → has b':' u.wallet ≡ false
    → has b':' t.token_id ≡ false
    → has b':' u.token_id ≡ false
    → cooldown_key t ≡ cooldown_key u
    → (to_lower t.wallet ≡ to_lower u.wallet)
      × (t.token_id ≡ u.token_id)
      × (to_lower t.side ≡ to_lower u.side)
unfolding cooldown_key
cooldown_key_parts t u p q r s e =
    let (wallets, rest) =
      split_unique b':' (to_lower t.wallet) (to_lower u.wallet)
        (t.token_id ++ b':' ∷ to_lower t.side) (u.token_id ++ b':' ∷ to_lower u.side)
        (to_lower-has t.wallet p) (to_lower-has u.wallet q) (ap (drop 3) e) in
    let (tokens, sides) =
      split_unique b':' t.token_id u.token_id (to_lower t.side) (to_lower u.side) r s rest in
    (wallets, tokens, sides)

-- Two trades with the same cooldown key, whose wallets and tokens have no colon, touch the user's
-- positions in the same way, so that no position alert is lost with a trade that is cooled down.
pub match_trade-cooldown_key {ℓ} :
    {F : Type ℓ} (c : Cache F) (t u : TradeDetected)
    → has b':' t.wallet ≡ false
    → has b':' u.wallet ≡ false
    → has b':' t.token_id ≡ false
    → has b':' u.token_id ≡ false
    → cooldown_key t ≡ cooldown_key u
    → match_trade c t.token_id t.side t.wallet ≡ match_trade c u.token_id u.side u.wallet
unfolding match_trade equal_fold
match_trade-cooldown_key c t u p q r s e =
    let (wallets, tokens, sides) = cooldown_key_parts t u p q r s e in
    rw (wallets, tokens, sides) refl
