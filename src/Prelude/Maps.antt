-- ===== src/Prelude/Maps.antt =====
-- Finite maps as association lists, for Go's maps and for tables with a primary key.
use Prim.Native.Nat.{◌+◌, ◌≤◌}
use mathlib.Core.Path.{◌≡◌, refl}
use mathlib.Core.Option.{Option, none, some}
use mathlib.Core.List.{List, [], ◌∷◌}
use native.Mathlib.Omega.{arith}
use lobster_roll.Prelude.Tests.{if◌then◌else◌}
use lobster_roll.Prelude.Lists.{length}
use lobster_roll.Prelude.Keys.{Eq, ◌≟◌, eq_of_beq, beq_of_eq}

module _ {ℓ κ} {K : Type ℓ} {V : Type κ} ⦃e : Eq K⦄ where
  unfoldable pub lookup : K → List (K × V) → Option V
  lookup k [] = none
  lookup k ((j, v) ∷ m) = if j ≟ k then some v else lookup k m

  unfoldable pub insert : K → V → List (K × V) → List (K × V)
  insert k v [] = (k, v) ∷ []
  insert k v ((j, w) ∷ m) = if j ≟ k then (k, v) ∷ m else (j, w) ∷ insert k v m

  unfoldable pub delete : K → List (K × V) → List (K × V)
  delete k [] = []
  delete k ((j, w) ∷ m) = let rest = delete k m in if j ≟ k then rest else (j, w) ∷ rest

  pub lookup-insert :
      (k j : K) (v : V) (m : List (K × V))
      → lookup j (insert k v m) ≡ (if k ≟ j then some v else lookup j m)
  unfolding lookup insert
  lookup-insert k j v [] = refl
  lookup-insert k j v ((i, w) ∷ m) = ground (
    arith,
    eq_of_beq i k,
    beq_of_eq k j,
    eq_of_beq k j,
    beq_of_eq i j,
    eq_of_beq i j,
    beq_of_eq i k,
    lookup-insert k j v m,
  )

  pub lookup-delete :
      (k j : K) (m : List (K × V)) → lookup j (delete k m) ≡ (if k ≟ j then none else lookup j m)
  unfolding lookup delete
  lookup-delete k j [] = ground arith
  lookup-delete k j ((i, w) ∷ m) = ground (
    arith,
    eq_of_beq i k,
    beq_of_eq k j,
    eq_of_beq k j,
    beq_of_eq i j,
    eq_of_beq i j,
    beq_of_eq i k,
    lookup-delete k j m,
  )

  pub length-insert-le : (k : K) (v : V) (m : List (K × V)) → length (insert k v m) ≤ length m + 1
  unfolding insert
  length-insert-le k v [] = omega arith
  length-insert-le k v ((j, w) ∷ m) = ground (arith, length-insert-le k v m)
