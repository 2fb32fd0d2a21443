-- ===== src/Notifier/Positions.antt =====
-- services/notifier/internal/positions: the user's own positions, and whether a whale's trade touches
-- one of them. The swap of the snapshot under the lock is one step.
pub mod Matches
pub mod Tests
use lobster_roll.Prelude.{
  ℕ, Bool, true, false, not, List, [], ◌∷◌, Option, none, some, GoString, codes, ◌≟◌, bytes_eq,
  lookup, insert, to_lower, trim_space, if◌then◌else◌, ◌&&◌, ◌||◌,
}
use lobster_roll.Float.{Float, ◌≤?◌, nought, float_eq}

-- MatchKind.
pub data MatchKind : Type 0 where
  unheld exact opposite : MatchKind

pub record Position {ℓ} (F : Type ℓ) : Type ℓ where
  pub asset : GoString
  pub condition_id : GoString
  pub opposite_asset : GoString
  pub outcome : GoString
  pub size : F
  pub avg_price : F
  pub cur_price : F
  pub current_value : F
  pub redeemable : Bool
  pub title : GoString
  pub slug : GoString

pub record Holding {ℓ} (F : Type ℓ) : Type ℓ where
  pub token_id : GoString
  pub condition_id : GoString
  pub outcome : GoString
  pub title : GoString
  pub slug : GoString
  pub size : F
  pub current_value : F

pub record Snapshot {ℓ} (F : Type ℓ) : Type ℓ where
  pub by_token : List (GoString × Holding F)
  pub by_opposite : List (GoString × Holding F)
  pub ok : Bool

pub record Cache {ℓ} (F : Type ℓ) : Type ℓ where
  pub snap : Snapshot F
  pub self : GoString

-- `strings.EqualFold` on ASCII.
unfoldable pub equal_fold : GoString → GoString → Bool
equal_fold a b = to_lower a ≟ to_lower b

module _ {ℓ} {F : Type ℓ} where
  unfoldable pub new_cache : GoString → Cache F
  new_cache self_wallet = record {
    snap = record { by_token = []; by_opposite = []; ok = false };
    self = to_lower (trim_space self_wallet);
  }

  unfoldable pub holding_of : Position F → Holding F
  holding_of p = record {
    token_id = p.asset;
    condition_id = p.condition_id;
    outcome = p.outcome;
    title = p.title;
    slug = p.slug;
    size = p.size;
    current_value = p.current_value;
  }

module _ {ℓ} {F : Type ℓ} ⦃d : Float F⦄ where
  -- Dust, or resolved and claimable.
  unfoldable pub dropped : Position F → Bool
  dropped p = p.size ≤? nought || (p.redeemable && float_eq p.cur_price nought)

  pub index_position : Snapshot F → Position F → Snapshot F
  unfolding holding_of
  index_position s p =
      let h = holding_of p in
      record s {
        by_token = insert p.asset h s.by_token;
        by_opposite =
            if p.opposite_asset ≟ []
            then s.by_opposite
            else insert p.opposite_asset h s.by_opposite;
      }

  pub index_all : Snapshot F → List (Position F) → Snapshot F
  unfolding dropped index_position
  index_all s [] = s
  index_all s (p ∷ ps) = if dropped p then index_all s ps else index_all (index_position s p) ps

  unfoldable pub replace : Cache F → List (Position F) → Cache F
  unfolding index_all
  replace c ps = record c {
    snap = index_all (record { by_token = []; by_opposite = []; ok = true }) ps;
  }

-- What `Match` answers: the holding, how the trade relates to it, and whether to alert.
pub record Verdict {ℓ} (F : Type ℓ) : Type ℓ where
  pub holding : Option (Holding F)
  pub kind : MatchKind
  pub fire : Bool

module _ {ℓ} {F : Type ℓ} where
  unfoldable pub no_match : Verdict F
  no_match = record { holding = none; kind = unheld; fire = false }

  -- The opposite outcome, asked after the outcome itself.
  unfoldable pub match_opposite : Option (Holding F) → Bool → Verdict F
  unfolding no_match
  match_opposite none sell = no_match
  match_opposite (some h) sell = record { holding = some h; kind = opposite; fire = not sell }

  unfoldable pub match_held : Option (Holding F) → Option (Holding F) → Bool → Verdict F
  unfolding match_opposite
  match_held (some h) across sell = record { holding = some h; kind = exact; fire = sell }
  match_held none across sell = match_opposite across sell

  unfoldable pub match_trade : Cache F → GoString → GoString → GoString → Verdict F
  unfolding equal_fold no_match match_held
  match_trade c token_id side wallet =
      if equal_fold wallet c.self
      then no_match
      else if not c.snap.ok
      then no_match
      else match_held (lookup token_id c.snap.by_token) (lookup token_id c.snap.by_opposite)
          (equal_fold side (codes "sell"))
