-- ===== src/Float/Defs.antt =====
-- Go's float64 as an interface: the operations that the services apply to it. The checker has no
-- floating-point numbers, so the code is modelled over every type with these operations.
use lobster_roll.Prelude.{ℕ, ◌≡◌, Bool, true, false, if◌then◌else◌}

-- `lit m n` is the constant nearest to m / n.
pub record Float {ℓ} (F : Type ℓ) : Type ℓ where
  pub lit : ℕ → ℕ → F
  pub of_ℕ : ℕ → F
  pub lt : F → F → Bool
  pub le : F → F → Bool
  pub add : F → F → F
  pub sub : F → F → F
  pub mul : F → F → F
  pub div : F → F → F
  pub neg : F → F

module _ {ℓ} {F : Type ℓ} ⦃d : Float F⦄ where
  infix 50 ◌<?◌ ◌≤?◌
  infixl 65 ◌⊕◌ ◌⊖◌
  infixl 70 ◌⊗◌ ◌⊘◌
  abbrev pub ◌<?◌ : F → F → Bool
  ◌<?◌ = d.lt

  abbrev pub ◌≤?◌ : F → F → Bool
  ◌≤?◌ = d.le

  abbrev pub ◌⊕◌ : F → F → F
  ◌⊕◌ = d.add

  abbrev pub ◌⊖◌ : F → F → F
  ◌⊖◌ = d.sub

  abbrev pub ◌⊗◌ : F → F → F
  ◌⊗◌ = d.mul

  abbrev pub ◌⊘◌ : F → F → F
  ◌⊘◌ = d.div

  abbrev pub nought : F
  nought = d.of_ℕ 0

  abbrev pub one : F
  one = d.of_ℕ 1

  -- `==` on floats: false on NaN, and true of the two zeros.
  abbrev pub float_eq : F → F → Bool
  float_eq x y = if x ≤? y then y ≤? x else false

  -- NaN is the value that is not `<=` itself.
  abbrev pub IsNumber : F → Type 0
  IsNumber x = (x ≤? x) ≡ true

-- The order of IEEE 754, in laws that hold of NaN and of the infinities too.
pub record IsOrdered {ℓ} (F : Type ℓ) ⦃d : Float F⦄ : Type ℓ where
  pub le_trans : (x y z : F) → (x ≤? y) ≡ true → (y ≤? z) ≡ true → (x ≤? z) ≡ true
  pub le-IsNumber_left : (x y : F) → (x ≤? y) ≡ true → IsNumber x
  pub le-IsNumber_right : (x y : F) → (x ≤? y) ≡ true → IsNumber y
  pub lt-le : (x y : F) → (x <? y) ≡ true → (x ≤? y) ≡ true
  pub lt-not-le : (x y : F) → (x <? y) ≡ true → (y ≤? x) ≡ false
  pub not_lt-le : (x y : F) → IsNumber x → IsNumber y → (x <? y) ≡ false → (y ≤? x) ≡ true
  pub not_le-lt : (x y : F) → IsNumber x → IsNumber y → (x ≤? y) ≡ false → (y <? x) ≡ true

-- What rounding keeps of exact arithmetic: a product by a fraction does not grow, a half stays
-- below every bound that is not negative, and subtracting what is not negative does not lift a
-- value above a limit.
pub record IsRounded {ℓ} (F : Type ℓ) ⦃d : Float F⦄ : Type ℓ where
  pub nought-IsNumber : IsNumber {F = F} nought
  pub nought-le-one : (nought {F = F} ≤? one) ≡ true
  pub nought-lt-one : (nought {F = F} <? one) ≡ true
  pub one-le-one : (one {F = F} ≤? one) ≡ true
  pub mul-le_self :
      (x f : F)
      → (nought <? x) ≡ true
      → (nought <? f) ≡ true
      → (f ≤? one) ≡ true
      → (x ⊗ f ≤? x) ≡ true
  pub half-le : (x c : F) → (x ≤? c) ≡ true → (nought ≤? c) ≡ true → (x ⊗ d.lit 1 2 ≤? c) ≡ true
  pub sub-not-lt : (m x y : F) → (m <? x) ≡ false → (nought ≤? y) ≡ true → (m <? x ⊖ y) ≡ false
