-- ===== src/Pricewatch/Snapshots.antt =====
-- services/pricewatch/internal/store/store.go: the table of price snapshots, whose key is the token
-- and the time.
pub mod Closest
use lobster_roll.Prelude.{
  ℕ, ◌-◌, Bool, true, false, not, List, [], ◌∷◌, Option, none, some, GoString, ◌≟◌, bytes_eq, ◌==◌,
  ltb, leb, keep, if◌then◌else◌, ◌&&◌,
}

pub record Row {ℓ} (F : Type ℓ) : Type ℓ where
  pub token_id : GoString
  pub ts : ℕ
  pub mid : F

-- ABS(a - b).
unfoldable pub distance : ℕ → ℕ → ℕ
distance a b = if leb a b then b - a else a - b

module _ {ℓ} {F : Type ℓ} where
  -- INSERT … ON CONFLICT DO UPDATE.
  unfoldable pub put : Row F → List (Row F) → List (Row F)
  put r [] = r ∷ []
  put r (q ∷ rest) = if q.token_id ≟ r.token_id && q.ts == r.ts then r ∷ rest else q ∷ put r rest

  -- ORDER BY ABS(ts - target) ASC, ts DESC: whether the first row comes first.
  unfoldable pub comes_first : ℕ → Row F → Row F → Bool
  unfolding distance
  comes_first target a b =
      let x = distance a.ts target in
      let y = distance b.ts target in
      if ltb x y then true else if ltb y x then false else leb b.ts a.ts

  unfoldable pub better : ℕ → Row F → Option (Row F) → Row F
  unfolding comes_first
  better target r none = r
  better target r (some q) = if comes_first target r q then r else q

  -- `Nearest`; none for ErrNoSnapshot.
  unfoldable pub nearest : GoString → ℕ → List (Row F) → Option (Row F)
  unfolding better
  nearest token target [] = none
  nearest token target (r ∷ rest) =
      let best = nearest token target rest in
      if r.token_id ≟ token then some (better target r best) else best

  unfoldable pub prune : ℕ → List (Row F) → List (Row F)
  prune cutoff = keep (λ r. not (ltb r.ts cutoff))
