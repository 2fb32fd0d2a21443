-- ===== src/Float/FixedPoint.antt =====
-- An instance of the interface: fixed-point numbers with six decimals, `none` for NaN. It runs the
-- tests and the examples, and shows that the laws can be met.
use native.Mathlib.Nat.{mul-le-mul, le_refl}
use lobster_roll.Prelude.{
  ℕ, ◌*◌, ◌/◌, ◌≤◌, ◌≡◌, refl, Bool, true, false, Option, none, some, arith, ltb, ℤ, pos, negsuc,
  ◌+ℤ◌, ◌-ℤ◌, ◌*ℤ◌, ◌/ℤ◌, ltb_ℤ, leb_ℤ, if◌then◌else◌,
}
use lobster_roll.Float.Defs.{Float, IsOrdered, IsRounded, ◌<?◌, ◌≤?◌, ◌⊗◌, nought, one}

abbrev pub Fixed : Type 0
Fixed = Option ℤ

abbrev pub scale : ℕ
scale = 1_000_000

abbrev pub on_numbers : (ℤ → ℤ → Option ℤ) → Fixed → Fixed → Fixed
on_numbers f (some a) (some b) = f a b
on_numbers f _ _ = none

abbrev pub compare_numbers : (ℤ → ℤ → Bool) → Fixed → Fixed → Bool
compare_numbers f (some a) (some b) = f a b
compare_numbers f _ _ = false

divide : ℤ → ℤ → Option ℤ
unfolding ◌/ℤ◌ ◌*ℤ◌
divide a (pos b) = if ltb 0 b then some (a *ℤ pos scale /ℤ pos b) else none
divide a (negsuc b) = some (a *ℤ pos scale /ℤ negsuc b)

unfoldable pub add_fixed : Fixed → Fixed → Fixed
unfolding ◌+ℤ◌
add_fixed = on_numbers (λ a b. some (a +ℤ b))

unfoldable pub sub_fixed : Fixed → Fixed → Fixed
unfolding ◌-ℤ◌
sub_fixed = on_numbers (λ a b. some (a -ℤ b))

unfoldable pub mul_fixed : Fixed → Fixed → Fixed
unfolding ◌*ℤ◌ ◌/ℤ◌
mul_fixed = on_numbers (λ a b. some (a *ℤ b /ℤ pos scale))

unfoldable pub div_fixed : Fixed → Fixed → Fixed
unfolding divide
div_fixed = on_numbers divide

unfoldable pub neg_fixed : Fixed → Fixed
unfolding sub_fixed
neg_fixed x = sub_fixed (some (pos 0)) x

instance abbrev pub fixed_float : Float Fixed
fixed_float = record {
  lit = λ m n. some (pos (m * scale / n));
  of_ℕ = λ n. some (pos (n * scale));
  lt = compare_numbers ltb_ℤ;
  le = compare_numbers leb_ℤ;
  add = add_fixed;
  sub = sub_fixed;
  mul = mul_fixed;
  div = div_fixed;
  neg = neg_fixed;
}

le_trans_fixed : (x y z : Fixed) → (x ≤? y) ≡ true → (y ≤? z) ≡ true → (x ≤? z) ≡ true
le_trans_fixed (some a) (some b) (some c) p q = ground arith
le_trans_fixed (some a) (some b) none p q = cc
le_trans_fixed (some a) none z p q = cc
le_trans_fixed none y z p q = cc

le_left_fixed : (x y : Fixed) → (x ≤? y) ≡ true → (x ≤? x) ≡ true
le_left_fixed (some a) y p = ground arith
le_left_fixed none y p = cc

le_right_fixed : (x y : Fixed) → (x ≤? y) ≡ true → (y ≤? y) ≡ true
le_right_fixed (some a) (some b) p = ground arith
le_right_fixed (some a) none p = cc
le_right_fixed none y p = cc

lt_le_fixed : (x y : Fixed) → (x <? y) ≡ true → ((x ≤? y) ≡ true) × ((y ≤? x) ≡ false)
lt_le_fixed (some a) (some b) p = ground arith
lt_le_fixed (some a) none p = cc
lt_le_fixed none y p = cc

total_fixed :
    (x y : Fixed)
    → (x ≤? x) ≡ true
    → (y ≤? y) ≡ true
    → ((x <? y) ≡ false → (y ≤? x) ≡ true) × ((x ≤? y) ≡ false → (y <? x) ≡ true)
total_fixed (some a) (some b) p q = (λ h. ground arith, λ h. ground arith)
total_fixed (some a) none p q = cc
total_fixed none y p q = cc

pub Fixed-IsOrdered : IsOrdered Fixed
Fixed-IsOrdered = record {
  le_trans = le_trans_fixed;
  le-IsNumber_left = le_left_fixed;
  le-IsNumber_right = le_right_fixed;
  lt-le = λ x y p. (lt_le_fixed x y p).0;
  lt-not-le = λ x y p. (lt_le_fixed x y p).1;
  not_lt-le = λ x y p q. (total_fixed x y p q).0;
  not_le-lt = λ x y p q. (total_fixed x y p q).1;
}

scaled-le : (a b : ℕ) → b ≤ scale → a * b / scale ≤ a
scaled-le a b h = omega (arith, mul-le-mul (le_refl a) h)

pos-*ℤ : (a b : ℕ) → pos a *ℤ pos b ≡ pos (a * b)
unfolding ◌*ℤ◌
pos-*ℤ a b = ground arith

mul-le_self_fixed :
    (x f : Fixed)
    → (nought <? x) ≡ true
    → (nought <? f) ≡ true
    → (f ≤? one) ≡ true
    → (x ⊗ f ≤? x) ≡ true
unfolding mul_fixed
mul-le_self_fixed (some (pos a)) (some (pos b)) p q r =
    rw (pos-*ℤ a b) (ground (arith, scaled-le a b (ground arith)))
mul-le_self_fixed (some (negsuc a)) f p q r = ground arith
mul-le_self_fixed (some (pos a)) (some (negsuc b)) p q r = ground arith
mul-le_self_fixed (some (pos a)) none p q r = cc
mul-le_self_fixed none f p q r = cc

half-le_fixed :
    (x c : Fixed) → (x ≤? c) ≡ true → (nought ≤? c) ≡ true → (x ⊗ some (pos 500_000) ≤? c) ≡ true
unfolding mul_fixed
half-le_fixed (some (pos a)) (some (pos c)) p q = ground arith
half-le_fixed (some (pos a)) (some (negsuc c)) p q = ground arith
half-le_fixed (some (negsuc a)) (some (pos c)) p q = ground arith
half-le_fixed (some (negsuc a)) (some (negsuc c)) p q = ground arith
half-le_fixed (some a) none p q = cc
half-le_fixed none c p q = cc

sub-not-lt_fixed :
    (m x y : Fixed) → (m <? x) ≡ false → (nought ≤? y) ≡ true → (m <? sub_fixed x y) ≡ false
unfolding sub_fixed
sub-not-lt_fixed (some m) (some x) (some y) p q = ground arith
sub-not-lt_fixed (some m) (some x) none p q = cc
sub-not-lt_fixed (some m) none y p q = refl
sub-not-lt_fixed none x y p q = refl

pub Fixed-IsRounded : IsRounded Fixed
Fixed-IsRounded = record {
  nought-IsNumber = refl;
  nought-le-one = refl;
  nought-lt-one = refl;
  one-le-one = refl;
  mul-le_self = mul-le_self_fixed;
  half-le = half-le_fixed;
  sub-not-lt = sub-not-lt_fixed;
}

-- 0.55 * 10 - 1.5 / 3
runs :
    sub_fixed
      (mul_fixed (some (pos 550_000)) (some (pos 10_000_000)))
      (div_fixed (some (pos 1_500_000)) (some (pos 3_000_000)))
    ≡ some (pos 5_000_000)
unfolding sub_fixed mul_fixed div_fixed
runs = refl
