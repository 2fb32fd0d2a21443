-- ===== src/Watcher/Address/Watched.antt =====
-- What the set of watched addresses holds after a change.
use lobster_roll.Prelude.{
  ℕ, ◌≡◌, refl, Bool, true, false, not, List, [], ◌∷◌, Option, none, some, GoString, ◌≟◌, bytes_eq,
  if◌then◌else◌, has, keep, arith, eq_of_beq, beq_of_eq,
}
use lobster_roll.Watcher.Address.{
  normalize_address, watch, unwatch, add_each, remove_each, apply, watched,
}

module _ (hex_to_address : GoString → List ℕ) where
  unfoldable pub refers_to : List ℕ → Option GoString → Bool
  refers_to a none = false
  refers_to a (some n) = hex_to_address n ≟ a

  -- Whether a text of the list is a form of the address.
  unfoldable pub names : List ℕ → List GoString → Bool
  unfolding refers_to
  names a [] = false
  names a (x ∷ xs) = if refers_to a (normalize_address x) then true else names a xs

  has-watch :
      (a : List ℕ) (m : List (List ℕ)) (n : Option GoString)
      → has a (watch hex_to_address m n) ≡ (if has a m then true else refers_to a n)
  unfolding has watch refers_to
  has-watch a m none = ground arith
  has-watch a m (some n) = ground (arith, eq_of_beq (hex_to_address n) a)

  has-keep :
      (a b : List ℕ) (m : List (List ℕ))
      → has a (keep (λ x. not (x ≟ b)) m) ≡ (if b ≟ a then false else has a m)
  unfolding has keep
  has-keep a b [] = ground arith
  has-keep a b (x ∷ m) = ground (
    arith,
    has-keep a b m,
    eq_of_beq x b,
    eq_of_beq x a,
    eq_of_beq b a,
    beq_of_eq x b,
    beq_of_eq b a,
  )

  has-unwatch :
      (a : List ℕ) (m : List (List ℕ)) (n : Option GoString)
      → has a (unwatch hex_to_address m n) ≡ (if refers_to a n then false else has a m)
  unfolding unwatch refers_to
  has-unwatch a m none = refl
  has-unwatch a m (some n) = has-keep a (hex_to_address n) m

  has-add_each :
      (a : List ℕ) (xs : List GoString) (m : List (List ℕ))
      → has a (add_each hex_to_address m xs) ≡ (if has a m then true else names a xs)
  unfolding add_each names
  has-add_each a [] m = ground arith
  has-add_each a (x ∷ xs) m = ground (
    arith,
    has-add_each a xs (watch hex_to_address m (normalize_address x)),
    has-watch a m (normalize_address x),
  )

  has-remove_each :
      (a : List ℕ) (xs : List GoString) (m : List (List ℕ))
      → has a (remove_each hex_to_address m xs) ≡ (if names a xs then false else has a m)
  unfolding remove_each names
  has-remove_each a [] m = refl
  has-remove_each a (x ∷ xs) m = ground (
    arith,
    has-remove_each a xs (unwatch hex_to_address m (normalize_address x)),
    has-unwatch a m (normalize_address x),
  )

  -- After a change an address is watched exactly if no removed text is a form of it, and it was
  -- watched or an added text is: a removal wins over an addition of the same change.
  pub watched-apply :
      (m : List (List ℕ)) (added removed : List GoString) (a : List ℕ)
      → watched (apply hex_to_address m added removed) a
        ≡ (if names a removed then false else if watched m a then true else names a added)
  unfolding watched apply
  watched-apply m added removed a =
      ground
        (arith, has-remove_each a removed (add_each hex_to_address m added), has-add_each a added m)
