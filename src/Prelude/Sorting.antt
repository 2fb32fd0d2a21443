-- ===== src/Prelude/Sorting.antt =====
-- Membership in a list by a tested equality, and insertion sort by a strict order. `sort.Slice` and
-- `sort.Strings` are modelled by it: between elements that the order does not tell apart Go's result
-- is one of several, and this is one of them.
use mathlib.Core.Path.{◌≡◌, refl, ◌∙◌}
use Prim.Native.Nat.{ℕ, suc}
use mathlib.Core.Bool.{Bool, true, false, ◌||◌}
use mathlib.Core.List.{List, [], ◌∷◌}
use native.Mathlib.Omega.{arith}
use lobster_roll.Prelude.Tests.{if◌then◌else◌, if_cases}
use lobster_roll.Prelude.Lists.{All, length}
use lobster_roll.Prelude.Keys.{Eq, ◌≟◌, eq_of_beq, beq_of_eq, bytes_lt}

module _ {ℓ} {A : Type ℓ} ⦃e : Eq A⦄ where
  unfoldable pub has : A → List A → Bool
  has a [] = false
  has a (x ∷ xs) = x ≟ a || has a xs

  -- No element stands in the list twice.
  abbrev pub Distinct : List A → Type 0
  Distinct [] = Unit {0}
  Distinct (x ∷ xs) = (has x xs ≡ false) × Distinct xs

module _ {ℓ} {A : Type ℓ} where
  unfoldable pub insert_by : (A → A → Bool) → A → List A → List A
  insert_by lt x [] = x ∷ []
  insert_by lt x (y ∷ ys) = if lt x y then x ∷ y ∷ ys else y ∷ insert_by lt x ys

  unfoldable pub sort_by : (A → A → Bool) → List A → List A
  unfolding insert_by
  sort_by lt [] = []
  sort_by lt (x ∷ xs) = insert_by lt x (sort_by lt xs)

  -- Nothing that stands later is before something that stands earlier.
  abbrev pub IsSorted : (A → A → Bool) → List A → Type ℓ
  IsSorted lt [] = Unit
  IsSorted lt (x ∷ xs) = All (λ y. lt y x ≡ false) xs × IsSorted lt xs

  pub All-insert_by {κ} :
      (P : A → Type κ) (lt : A → A → Bool) (x : A) (xs : List A)
      → P x
      → All P xs
      → All P (insert_by lt x xs)
  unfolding insert_by
  All-insert_by P lt x [] p ps = (p, tt)
  All-insert_by P lt x (y ∷ ys) p (q, qs) =
      elim (lt x y) as (λ b. All P (if b then x ∷ y ∷ ys else y ∷ insert_by lt x ys)) [
        | true ↦ (p, (q, qs))
        | false ↦ (q, All-insert_by P lt x ys p qs)
      ]

  pub All-sort_by {κ} :
      (P : A → Type κ) (lt : A → A → Bool) (xs : List A) → All P xs → All P (sort_by lt xs)
  unfolding sort_by
  All-sort_by P lt [] ps = tt
  All-sort_by P lt (x ∷ xs) (p, ps) =
      All-insert_by P lt x (sort_by lt xs) p (All-sort_by P lt xs ps)

  pub length-insert_by :
      (lt : A → A → Bool) (x : A) (xs : List A) → length (insert_by lt x xs) ≡ suc (length xs)
  unfolding insert_by
  length-insert_by lt x [] = refl
  length-insert_by lt x (y ∷ ys) = ground (arith, length-insert_by lt x ys)

  pub length-sort_by : (lt : A → A → Bool) (xs : List A) → length (sort_by lt xs) ≡ length xs
  unfolding sort_by
  length-sort_by lt [] = refl
  length-sort_by lt (x ∷ xs) =
      omega (arith, length-insert_by lt x (sort_by lt xs), length-sort_by lt xs)

-- A strict weak order, as a sort wants it.
pub record IsWeakOrder {ℓ} {A : Type ℓ} (lt : A → A → Bool) : Type ℓ where
  pub asymm : (x y : A) → lt x y ≡ true → lt y x ≡ false
  pub not_trans : (x y z : A) → lt y x ≡ false → lt z y ≡ false → lt z x ≡ false

module _ {ℓ} {A : Type ℓ} {lt : A → A → Bool} (w : IsWeakOrder lt) where
  behind :
      (x y : A) (ys : List A)
      → lt y x ≡ false
      → All (λ z. lt z y ≡ false) ys
      → All (λ z. lt z x ≡ false) ys
  behind x y [] h a = tt
  behind x y (z ∷ zs) h (p, a) = (w.not_trans x y z h p, behind x y zs h a)

  pub insert_by-IsSorted : (x : A) (xs : List A) → IsSorted lt xs → IsSorted lt (insert_by lt x xs)
  unfolding insert_by
  insert_by-IsSorted x [] s = (tt, tt)
  insert_by-IsSorted x (y ∷ ys) (a, s) =
      if_cases (IsSorted lt) (lt x y) (x ∷ y ∷ ys) (y ∷ insert_by lt x ys)
        (λ e. let h = w.asymm x y e in ((h, behind x y ys h a), (a, s)))
        (λ e. (All-insert_by (λ z. lt z y ≡ false) lt x ys e a, insert_by-IsSorted x ys s))

  pub sort_by-IsSorted : (xs : List A) → IsSorted lt (sort_by lt xs)
  unfolding sort_by
  sort_by-IsSorted [] = tt
  sort_by-IsSorted (x ∷ xs) = insert_by-IsSorted x (sort_by lt xs) (sort_by-IsSorted xs)

module _ {ℓ} {A : Type ℓ} ⦃e : Eq A⦄ where
  pub has-insert_by :
      (lt : A → A → Bool) (a x : A) (xs : List A) → has a (insert_by lt x xs) ≡ (x ≟ a || has a xs)
  unfolding insert_by has
  has-insert_by lt a x [] = refl
  has-insert_by lt a x (y ∷ ys) = ground (arith, has-insert_by lt a x ys)

  pub has-sort_by : (lt : A → A → Bool) (a : A) (xs : List A) → has a (sort_by lt xs) ≡ has a xs
  unfolding sort_by has
  has-sort_by lt a [] = refl
  has-sort_by lt a (x ∷ xs) =
      ground (arith, has-insert_by lt a x (sort_by lt xs), has-sort_by lt a xs)

  pub insert_by-Distinct :
      (lt : A → A → Bool) (x : A) (xs : List A)
      → has x xs ≡ false
      → Distinct xs
      → Distinct (insert_by lt x xs)
  unfolding insert_by has
  insert_by-Distinct lt x [] h d = (refl, tt)
  insert_by-Distinct lt x (y ∷ ys) h d = ground (
    arith,
    beq_of_eq x y,
    beq_of_eq y x,
    eq_of_beq x y,
    has-insert_by lt y x ys,
    insert_by-Distinct lt x ys,
  )

  pub sort_by-Distinct : (lt : A → A → Bool) (xs : List A) → Distinct xs → Distinct (sort_by lt xs)
  unfolding sort_by
  sort_by-Distinct lt [] d = tt
  sort_by-Distinct lt (x ∷ xs) (h, d) =
      insert_by-Distinct lt x (sort_by lt xs) (has-sort_by lt x xs ∙ h) (sort_by-Distinct lt xs d)

bytes_lt-asymm : (x y : List ℕ) → bytes_lt x y ≡ true → bytes_lt y x ≡ false
unfolding bytes_lt
bytes_lt-asymm [] [] h = refl
bytes_lt-asymm [] (y ∷ ys) h = refl
bytes_lt-asymm (x ∷ xs) [] h = cc
bytes_lt-asymm (x ∷ xs) (y ∷ ys) h = ground (arith, bytes_lt-asymm xs ys)

bytes_lt-not_trans :
    (x y z : List ℕ) → bytes_lt y x ≡ false → bytes_lt z y ≡ false → bytes_lt z x ≡ false
unfolding bytes_lt
bytes_lt-not_trans [] y [] h k = refl
bytes_lt-not_trans [] y (z ∷ zs) h k = refl
bytes_lt-not_trans (x ∷ xs) [] z h k = cc
bytes_lt-not_trans (x ∷ xs) (y ∷ ys) [] h k = cc
bytes_lt-not_trans (x ∷ xs) (y ∷ ys) (z ∷ zs) h k = ground (arith, bytes_lt-not_trans xs ys zs)

pub bytes_lt-IsWeakOrder : IsWeakOrder bytes_lt
bytes_lt-IsWeakOrder = record { asymm = bytes_lt-asymm; not_trans = bytes_lt-not_trans }

-- Between different strings one comes first.
pub bytes_lt-connex : (x y : List ℕ) → bytes_lt x y ≡ false → bytes_lt y x ≡ false → x ≡ y
unfolding bytes_lt
bytes_lt-connex [] [] h k = refl
bytes_lt-connex [] (y ∷ ys) h k = cc
bytes_lt-connex (x ∷ xs) [] h k = cc
bytes_lt-connex (x ∷ xs) (y ∷ ys) h k = ground (arith, bytes_lt-connex xs ys)
