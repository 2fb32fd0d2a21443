-- ===== src/Prelude/Keys.antt =====
-- Equality that a program tests, as an interface, and Go's strings as sequences of bytes.
use Prim.Native.Nat.{ℕ, zero, suc, ◌+◌, ◌/◌, ◌%◌}
use Prim.Native.Char.{code}
use Prim.Native.String.{String}
use mathlib.Core.Path.{◌≡◌, refl, ap, sym, transport}
use mathlib.Core.Logic.{◌↔◌}
use mathlib.Core.Bool.{Bool, true, false, ◌&&◌, ◌||◌}
use mathlib.Core.List.{List, [], ◌∷◌, reverse, reverse-cons, reverse-reverse}
use lobster_roll.Prelude.Lists.{All, All-append}
use mathlib.Core.Option.{Option, none, some}
use native.Mathlib.Omega.{arith}
use lobster_roll.Prelude.Tests.{◌==◌ as nat_beq, ==_iff, ltb, leb, if◌then◌else◌}

pub record Eq {ℓ} (A : Type ℓ) : Type ℓ where
  pub beq : A → A → Bool
  pub beq_iff : (a b : A) → (beq a b ≡ true) ↔ (a ≡ b)

infix 50 ◌≟◌
abbrev pub ◌≟◌ {ℓ} : {A : Type ℓ} ⦃e : Eq A⦄ → A → A → Bool
◌≟◌ ⦃e⦄ = e.beq

instance abbrev pub nat_eq : Eq ℕ
nat_eq = record { beq = nat_beq; beq_iff = ==_iff }

-- Both halves in the form that the tactics use.
pub beq_refl {ℓ} : {A : Type ℓ} ⦃e : Eq A⦄ → (a : A) → (a ≟ a) ≡ true
beq_refl ⦃e⦄ a = (e.beq_iff a a).1 refl

pub eq_of_beq {ℓ} : {A : Type ℓ} ⦃e : Eq A⦄ → (a b : A) → (a ≟ b) ≡ true → a ≡ b
eq_of_beq ⦃e⦄ a b = (e.beq_iff a b).0

pub beq_of_eq {ℓ} : {A : Type ℓ} ⦃e : Eq A⦄ → (a b : A) → a ≡ b → (a ≟ b) ≡ true
beq_of_eq ⦃e⦄ a b = (e.beq_iff a b).1

unfoldable pub bytes_beq : List ℕ → List ℕ → Bool
bytes_beq [] [] = true
bytes_beq (x ∷ xs) (y ∷ ys) = nat_beq x y && bytes_beq xs ys
bytes_beq _ _ = false

bytes_beq_refl : (xs : List ℕ) → bytes_beq xs xs ≡ true
unfolding bytes_beq
bytes_beq_refl [] = refl
bytes_beq_refl (x ∷ xs) = ground (arith, bytes_beq_refl xs)

bytes_beq_eq : (xs ys : List ℕ) → bytes_beq xs ys ≡ true → xs ≡ ys
unfolding bytes_beq
bytes_beq_eq [] [] h = refl
bytes_beq_eq (x ∷ xs) (y ∷ ys) h = ground (arith, bytes_beq_eq xs ys)
bytes_beq_eq [] (y ∷ ys) h = cc
bytes_beq_eq (x ∷ xs) [] h = cc

pub bytes_beq_iff : (xs ys : List ℕ) → (bytes_beq xs ys ≡ true) ↔ (xs ≡ ys)
bytes_beq_iff xs ys = (bytes_beq_eq xs ys, λ e. rw e (bytes_beq_refl ys))

-- A Go string is its bytes.
abbrev pub GoString : Type 0
GoString = List ℕ

instance abbrev pub bytes_eq : Eq (List ℕ)
bytes_eq = record { beq = bytes_beq; beq_iff = bytes_beq_iff }

-- The bytes of an ASCII literal.
abbrev pub codes : String → List ℕ
codes String.[] = []
codes (String.◌∷◌ c s) = code c ∷ codes s

-- The order of Go's `<` on strings.
unfoldable pub bytes_lt : List ℕ → List ℕ → Bool
bytes_lt [] [] = false
bytes_lt [] (y ∷ ys) = true
bytes_lt (x ∷ xs) [] = false
bytes_lt (x ∷ xs) (y ∷ ys) =
    let rest = bytes_lt xs ys in if ltb x y then true else if ltb y x then false else rest

-- `strings.ToLower` on ASCII.
unfoldable pub to_lower : List ℕ → List ℕ
to_lower [] = []
to_lower (c ∷ cs) = (if leb b'A' c && leb c b'Z' then c + 32 else c) ∷ to_lower cs

to_lower_byte : (c : ℕ) → ℕ
to_lower_byte c = if leb b'A' c && leb c b'Z' then c + 32 else c

pub to_lower-to_lower : (s : List ℕ) → to_lower (to_lower s) ≡ to_lower s
unfolding to_lower
to_lower-to_lower [] = refl
to_lower-to_lower (c ∷ cs) = ground (arith, to_lower-to_lower cs)

abbrev pub is_space : ℕ → Bool
is_space c = nat_beq c 32 || (leb 9 c && leb c 13)

unfoldable pub trim_left : List ℕ → List ℕ
trim_left [] = []
trim_left (c ∷ cs) = let rest = trim_left cs in if is_space c then rest else c ∷ cs

-- `strings.TrimSpace` on ASCII.
unfoldable pub trim_space : List ℕ → List ℕ
unfolding trim_left
trim_space s = reverse (trim_left (reverse (trim_left s)))

-- `strings.HasPrefix` with `strings.TrimPrefix`: the rest after a prefix, if it is one.
unfoldable pub strip_prefix : List ℕ → List ℕ → Option (List ℕ)
strip_prefix [] s = some s
strip_prefix (p ∷ ps) [] = none
strip_prefix (p ∷ ps) (c ∷ cs) = if nat_beq p c then strip_prefix ps cs else none

All-reverse : (P : ℕ → Type 0) (s : List ℕ) → All P s → All P (reverse s)
All-reverse P [] a = tt
All-reverse P (c ∷ cs) (p, ps) =
    transport (ap (All P) (sym (reverse-cons c cs)))
      (All-append P (reverse cs) (c ∷ []) (All-reverse P cs ps) (p, tt))

trim_left-All : (s : List ℕ) → All (λ c. is_space c ≡ false) s → trim_left s ≡ s
unfolding trim_left
trim_left-All [] a = refl
trim_left-All (c ∷ cs) (p, ps) = rw p

-- A string with no white space is as it was trimmed.
pub trim_space-All : (s : List ℕ) → All (λ c. is_space c ≡ false) s → trim_space s ≡ s
unfolding trim_space
trim_space-All s a = rw (
  trim_left-All s a,
  trim_left-All (reverse s) (All-reverse (λ c. is_space c ≡ false) s a),
  reverse-reverse s,
)

-- The decimal digits, the last one first; one round for each digit and one more.
unfoldable pub digits : ℕ → ℕ → List ℕ
digits zero n = []
digits (suc fuel) n =
    let rest = digits fuel (n / 10) in (b'0' + n % 10) ∷ (if nat_beq (n / 10) 0 then [] else rest)

-- `big.Int.String`.
unfoldable pub decimal : ℕ → GoString
unfolding digits
decimal n = reverse (digits (suc n) n)
