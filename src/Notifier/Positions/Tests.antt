-- ===== src/Notifier/Positions/Tests.antt =====
-- Runs of the positions cache.
use lobster_roll.Prelude.{
  true, false, not, ◌≡◌, refl, List, [], ◌∷◌, some, codes, pos, ◌&&◌, if◌then◌else◌, bytes_beq,
  to_lower, trim_space, lookup, insert,
}
use lobster_roll.Float.{Fixed, fixed_float}
use lobster_roll.Notifier.Positions.{
  Position, Cache, new_cache, replace, match_trade, equal_fold, index_position, index_all,
}
use lobster_roll.Notifier.Positions.Matches.{match_trade_fires, holds, holds_against}

abbrev pub game : Position Fixed
game = record {
  asset = codes "tokA";
  condition_id = codes "0xc";
  opposite_asset = codes "tokB";
  outcome = codes "Yes";
  size = some (pos 100_000_000);
  avg_price = some (pos 500_000);
  cur_price = some (pos 600_000);
  current_value = some (pos 60_000_000);
  redeemable = false;
  title = codes "Game";
  slug = codes "game";
}

abbrev pub held : List (Position Fixed)
held =
    game
    ∷ record game { asset = codes "dust"; size = some (pos 0) }
    ∷ record game { asset = codes "resolved"; redeemable = true; cur_price = some (pos 0) }
    ∷ []

abbrev pub cache : Cache Fixed
cache = replace (new_cache (codes " 0xME ")) held

fires :
    ((match_trade cache (codes "tokA") (codes "Sell") (codes "0xwhale")).fire ≡ true)
    × ((match_trade cache (codes "tokB") (codes "buy") (codes "0xwhale")).fire ≡ true)
    × ((match_trade cache (codes "tokA") (codes "sell") (codes "0xme")).fire ≡ false)
    × ((match_trade cache (codes "dust") (codes "sell") (codes "0xwhale")).fire ≡ false)
unfolding match_trade replace index_all index_position new_cache bytes_beq to_lower trim_space
    lookup insert
fires = (refl, refl, refl, refl)

match_trade_fires_example :
    (match_trade cache (codes "tokA") (codes "sell") (codes "0xwhale")).fire ≡ (
      not (equal_fold (codes "0xwhale") (new_cache {F = Fixed} (codes " 0xME ")).self)
      && (if equal_fold (codes "sell") (codes "sell")
          then holds (codes "tokA") held
          else not (holds (codes "tokA") held) && holds_against (codes "tokA") held))
match_trade_fires_example =
    match_trade_fires (new_cache (codes " 0xME ")) held (codes "tokA") (codes "sell")
      (codes "0xwhale")
