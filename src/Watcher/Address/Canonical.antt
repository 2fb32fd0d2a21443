-- ===== src/Watcher/Address/Canonical.antt =====
-- What normalisation answers is in canonical form.
use lobster_roll.Prelude.{
  ◌≡◌, refl, sym, ◌∙◌, ap, Bool, true, false, List, [], ◌∷◌, ◌++◌, Option, none, some, GoString,
  ◌≟◌, bytes_eq, length, if◌then◌else◌, if_cases, to_lower, to_lower-to_lower, trim_space,
  trim_space-All, is_space, has, Distinct, All, arith, eq_of_beq, beq_of_eq,
}
use lobster_roll.Watcher.Address.{
  is_hex_digit, all_hex, has_shape, normalize_trimmed, normalize_address, add_new, normalize_all,
  normalize_addresses,
}

length-to_lower : (s : GoString) → length (to_lower s) ≡ length s
unfolding to_lower
length-to_lower [] = refl
length-to_lower (c ∷ cs) = omega (arith, length-to_lower cs)

all_hex-to_lower : (s : GoString) → all_hex s ≡ true → all_hex (to_lower s) ≡ true
unfolding all_hex is_hex_digit to_lower
all_hex-to_lower [] h = refl
all_hex-to_lower (c ∷ cs) h = ground (arith, all_hex-to_lower cs)

has_shape-to_lower : (s : GoString) → has_shape s ≡ true → has_shape (to_lower s) ≡ true
unfolding has_shape to_lower
has_shape-to_lower [] h = h
has_shape-to_lower (z ∷ []) h = h
has_shape-to_lower (z ∷ x ∷ ds) h = ground (arith, length-to_lower ds, all_hex-to_lower ds)

all_hex-solid : (s : GoString) → all_hex s ≡ true → All (λ c. is_space c ≡ false) s
unfolding all_hex is_hex_digit
all_hex-solid [] h = tt
all_hex-solid (c ∷ cs) h = (ground (arith), all_hex-solid cs (ground arith))

has_shape-solid : (s : GoString) → has_shape s ≡ true → All (λ c. is_space c ≡ false) s
unfolding has_shape
has_shape-solid [] h = tt
has_shape-solid (z ∷ []) h = cc
has_shape-solid (z ∷ x ∷ ds) h = (ground arith, (ground arith, all_hex-solid ds (ground arith)))

normalize_trimmed-some :
    (s t : GoString) → normalize_trimmed s ≡ some t → (has_shape s ≡ true) × (to_lower s ≡ t)
unfolding normalize_trimmed
normalize_trimmed-some s t h = ground arith

-- An address that normalisation answers is a fixed point of it, has the 42 characters of an address,
-- and is in lower case.
pub normalize_address-canonical :
    (s t : GoString)
    → normalize_address s ≡ some t
    → (normalize_address t ≡ some t) × (has_shape t ≡ true) × (to_lower t ≡ t)
unfolding normalize_address normalize_trimmed
normalize_address-canonical s t h =
    let (shape, e) = normalize_trimmed-some (trim_space s) t h in
    let shape_t = ap has_shape (sym e) ∙ has_shape-to_lower (trim_space s) shape in
    let lower = ap to_lower (sym e) ∙ to_lower-to_lower (trim_space s) ∙ e in
    (rw (trim_space-All t (has_shape-solid t shape_t), shape_t, lower), shape_t, lower)

has-snoc :
    (a b : GoString) (xs : List GoString)
    → has a (xs ++ b ∷ []) ≡ (if has a xs then true else b ≟ a)
unfolding has
has-snoc a b [] = ground arith
has-snoc a b (x ∷ xs) = ground (arith, has-snoc a b xs)

Distinct-snoc :
    (a : GoString) (xs : List GoString) → has a xs ≡ false → Distinct xs → Distinct (xs ++ a ∷ [])
unfolding has
Distinct-snoc a [] h d = (refl, tt)
Distinct-snoc a (x ∷ xs) h (p, d) = (
  ground (arith, has-snoc x a xs, eq_of_beq a x, beq_of_eq x a),
  Distinct-snoc a xs (ground arith) d,
)

add_new-Distinct :
    (out : List GoString) (a : Option GoString) → Distinct out → Distinct (add_new out a)
unfolding add_new
add_new-Distinct out none d = d
add_new-Distinct out (some a) d =
    if_cases Distinct (has a out) out (out ++ a ∷ []) (λ _. d) (λ h. Distinct-snoc a out h d)

normalize_all-Distinct : (xs out : List GoString) → Distinct out → Distinct (normalize_all out xs)
unfolding normalize_all
normalize_all-Distinct [] out d = d
normalize_all-Distinct (x ∷ xs) out d =
    normalize_all-Distinct xs (add_new out (normalize_address x))
      (add_new-Distinct out (normalize_address x) d)

-- Whether an input of the list normalises to the address.
pub normalizes_to : GoString → Option GoString → Bool
normalizes_to a none = false
normalizes_to a (some b) = b ≟ a

pub mentions : GoString → List GoString → Bool
unfolding normalizes_to
mentions a [] = false
mentions a (x ∷ xs) = if normalizes_to a (normalize_address x) then true else mentions a xs

has-add_new :
    (a : GoString) (out : List GoString) (n : Option GoString)
    → has a (add_new out n) ≡ (if has a out then true else normalizes_to a n)
unfolding add_new normalizes_to
has-add_new a out none = ground arith
has-add_new a out (some b) = ground (arith, has-snoc a b out, eq_of_beq b a)

has-normalize_all :
    (a : GoString) (xs out : List GoString)
    → has a (normalize_all out xs) ≡ (if has a out then true else mentions a xs)
unfolding normalize_all mentions
has-normalize_all a [] out = ground arith
has-normalize_all a (x ∷ xs) out = ground (
  arith,
  has-normalize_all a xs (add_new out (normalize_address x)),
  has-add_new a out (normalize_address x),
)

-- The normalised list holds no address twice, and holds exactly the addresses that an input
-- normalises to.
pub normalize_addresses-Distinct :
    (xs : List GoString) (a : GoString)
    → Distinct (normalize_addresses xs) × (has a (normalize_addresses xs) ≡ mentions a xs)
unfolding normalize_addresses has
normalize_addresses-Distinct xs a = (normalize_all-Distinct xs [] tt, has-normalize_all a xs [])
