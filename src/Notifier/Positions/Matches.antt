-- ===== src/Notifier/Positions/Matches.antt =====
-- When a whale's trade touches a position: `Match` after `Replace`, against the list of positions.
use lobster_roll.Prelude.{
  Bool, true, false, not, ◌≡◌, refl, List, [], ◌∷◌, Option, none, some, GoString, codes, ◌≟◌,
  bytes_eq, lookup, lookup-insert, if◌then◌else◌, ◌&&◌, ◌||◌, arith,
}
use lobster_roll.Float.{Float}
use lobster_roll.Notifier.Positions.{
  Position, Holding, Snapshot, Cache, equal_fold, holding_of, dropped, index_position, index_all,
  replace, no_match, match_opposite, match_held, match_trade,
}

-- Whether a position is worth an alert and its outcome, or the other outcome of its market, is the
-- token.
module _ {ℓ} {F : Type ℓ} ⦃d : Float F⦄ where
  unfoldable pub holds : GoString → List (Position F) → Bool
  holds t [] = false
  holds t (p ∷ ps) = (not (dropped p) && p.asset ≟ t) || holds t ps

  unfoldable pub holds_against : GoString → List (Position F) → Bool
  holds_against t [] = false
  holds_against t (p ∷ ps) =
      (not (dropped p) && not (p.opposite_asset ≟ []) && p.opposite_asset ≟ t) || holds_against t ps

  abbrev is_some : Option (Holding F) → Bool
  is_some none = false
  is_some (some h) = true

  index_all-by_token :
      (s : Snapshot F) (ps : List (Position F)) (t : GoString)
      → is_some (lookup t (index_all s ps).by_token) ≡ (is_some (lookup t s.by_token) || holds t ps)
  unfolding index_all index_position holds
  index_all-by_token s [] t = ground arith
  index_all-by_token s (p ∷ ps) t = ground (
    arith,
    index_all-by_token s ps t,
    index_all-by_token (index_position s p) ps t,
    lookup-insert p.asset t (holding_of p) s.by_token,
  )

  index_all-by_opposite :
      (s : Snapshot F) (ps : List (Position F)) (t : GoString)
      → is_some (lookup t (index_all s ps).by_opposite)
        ≡ (is_some (lookup t s.by_opposite) || holds_against t ps)
  unfolding index_all index_position holds_against
  index_all-by_opposite s [] t = ground arith
  index_all-by_opposite s (p ∷ ps) t = ground (
    arith,
    index_all-by_opposite s ps t,
    index_all-by_opposite (index_position s p) ps t,
    lookup-insert p.opposite_asset t (holding_of p) s.by_opposite,
  )

  index_all-ok : (s : Snapshot F) (ps : List (Position F)) → (index_all s ps).ok ≡ s.ok
  unfolding index_all index_position
  index_all-ok s [] = refl
  index_all-ok s (p ∷ ps) = ground (arith, index_all-ok s ps, index_all-ok (index_position s p) ps)

  match_held-fire :
      (h k : Option (Holding F)) (sell : Bool)
      → (match_held h k sell).fire ≡ (if sell then is_some h else not (is_some h) && is_some k)
  unfolding match_held match_opposite no_match
  match_held-fire (some h) k sell = ground arith
  match_held-fire none none sell = ground arith
  match_held-fire none (some k) sell = ground arith

  -- After the positions are loaded, a trade fires an alert exactly if it is not the user's own and
  -- either sells a token that the user holds, or buys the opposite of a held token while not being a
  -- held token itself. Dust and claimable positions count in neither case.
  pub match_trade_fires :
      (c : Cache F) (ps : List (Position F)) (t side wallet : GoString)
      → (match_trade (replace c ps) t side wallet).fire ≡ (
          not (equal_fold wallet c.self)
          && (if equal_fold side (codes "sell")
              then holds t ps
              else not (holds t ps) && holds_against t ps))
  unfolding match_trade replace no_match lookup
  match_trade_fires c ps t side wallet =
      let start : Snapshot F = record { by_token = []; by_opposite = []; ok = true } in
      let s = index_all start ps in
      ground (
        arith,
        index_all-ok start ps,
        index_all-by_token start ps t,
        index_all-by_opposite start ps t,
        match_held-fire (lookup t s.by_token) (lookup t s.by_opposite)
            (equal_fold side (codes "sell")),
      )
