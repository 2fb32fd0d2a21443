-- ===== src/Pricewatch/Snapshots/Closest.antt =====
-- The nearest snapshot is of the token, and none of the token's is nearer.
use mathlib.Core.Path.{transport}
use lobster_roll.Prelude.{
  sym, ◌∙◌, ap, Bool-cases, ℕ, ◌≤◌, ◌≡◌, true, false, List, [], ◌∷◌, none, some, GoString, ◌≟◌,
  bytes_eq, eq_of_beq, if◌then◌else◌, All, arith, leb, Option-cases, inl, inr,
}
use lobster_roll.Pricewatch.Snapshots.{Row, distance, comes_first, better, nearest}

module _ {ℓ} {F : Type ℓ} where
  some-injective : {a b : Row F} → some a ≡ some b → a ≡ b
  some-injective h = ground arith

  -- A row of the token is not nearer to the target than the best one.
  abbrev pub NotNearer : GoString → ℕ → Row F → Row F → Type 0
  NotNearer token target best r =
      (if r.token_id ≟ token then leb (distance best.ts target) (distance r.ts target) else true)
      ≡ true

  weaken :
      (token : GoString) (target : ℕ) (a b : Row F) (rows : List (Row F))
      → distance a.ts target ≤ distance b.ts target
      → All (NotNearer token target b) rows
      → All (NotNearer token target a) rows
  weaken token target a b [] h t = tt
  weaken token target a b (r ∷ rows) h (p, ps) = (ground arith, weaken token target a b rows h ps)

  better-distance :
      (target : ℕ) (r q : Row F)
      → (distance (better target r (some q)).ts target ≤ distance r.ts target)
        × (distance (better target r (some q)).ts target ≤ distance q.ts target)
  unfolding better comes_first
  better-distance target r q = ground arith

  better-token :
      (token : GoString) (target : ℕ) (r q : Row F)
      → r.token_id ≡ token
      → q.token_id ≡ token
      → (better target r (some q)).token_id ≡ token
  unfolding better
  better-token token target r q e f = ground arith

  -- The rows hold no snapshot of the token.
  abbrev pub Without : GoString → List (Row F) → Type 0
  Without token rows = All (λ r. (r.token_id ≟ token) ≡ false) rows

  no_nearer :
      (token : GoString) (target : ℕ) (best : Row F) (rows : List (Row F))
      → Without token rows
      → All (NotNearer token target best) rows
  no_nearer token target best [] w = tt
  no_nearer token target best (r ∷ rows) (p, ps) =
      (ground arith, no_nearer token target best rows ps)

  pub nearest-none :
      (token : GoString) (target : ℕ) (rows : List (Row F))
      → nearest token target rows ≡ none
      → Without token rows
  unfolding nearest
  nearest-none token target [] h = tt
  nearest-none token target (r ∷ rows) h =
      (ground arith, nearest-none token target rows (ground arith))

  nearest-miss :
      (token : GoString) (target : ℕ) (r : Row F) (rows : List (Row F))
      → (r.token_id ≟ token) ≡ false
      → nearest token target (r ∷ rows) ≡ nearest token target rows
  unfolding nearest
  nearest-miss token target r rows h = ground arith

  nearest-hit :
      (token : GoString) (target : ℕ) (r : Row F) (rows : List (Row F))
      → (r.token_id ≟ token) ≡ true
      → nearest token target (r ∷ rows) ≡ some (better target r (nearest token target rows))
  unfolding nearest
  nearest-hit token target r rows h = ground arith

  -- What `nearest` answers is of the token, and no snapshot of the token is nearer to the target.
  pub nearest-NotNearer :
      (token : GoString) (target : ℕ) (rows : List (Row F)) {best : Row F}
      → nearest token target rows ≡ some best
      → (best.token_id ≡ token) × All (NotNearer token target best) rows
  unfolding nearest better
  nearest-NotNearer token target [] {best} h = absurd cc
  nearest-NotNearer token target (r ∷ rows) {best} h = elim (Bool-cases (r.token_id ≟ token)) [
    | inr miss ↦
        let (e, a) =
          nearest-NotNearer token target rows (sym (nearest-miss token target r rows miss) ∙ h) in
        (e, (ground arith, a))
    | inl hit ↦
        let got = sym (nearest-hit token target r rows hit) ∙ h in
        elim (Option-cases (nearest token target rows)) [
          | inl none_there ↦
              let same : r ≡ best =
                some-injective (ap (λ o. some (better target r o)) (sym none_there) ∙ got) in
              transport
                (ap (λ b. (b.token_id ≡ token) × All (NotNearer token target b) (r ∷ rows)) same)
                (
                  eq_of_beq r.token_id token hit,
                  (
                    ground arith,
                    no_nearer token target r rows (nearest-none token target rows none_there),
                  ),
                )
          | inr (q, there) ↦
              let same : better target r (some q) ≡ best =
                some-injective (ap (λ o. some (better target r o)) (sym there) ∙ got) in
              let (e, a) = nearest-NotNearer token target rows there in
              let (to_r, to_q) = better-distance target r q in
              transport
                (ap (λ b. (b.token_id ≡ token) × All (NotNearer token target b) (r ∷ rows)) same)
                (
                  better-token token target r q (eq_of_beq r.token_id token hit) e,
                  (ground arith, weaken token target (better target r (some q)) q rows to_q a),
                )
        ]
  ]
