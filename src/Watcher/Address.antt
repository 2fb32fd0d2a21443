-- ===== src/Watcher/Address.antt =====
-- pkg/chain/address.go and services/watcher/internal/watchset: canonical addresses, and the set of
-- watched ones. Go's map of addresses is a list of them; strings are ASCII.
pub mod Canonical
pub mod Watched
mod Tests
use lobster_roll.Prelude.{
  ℕ, ◌≡◌, Bool, true, false, not, List, [], ◌∷◌, ◌++◌, Option, none, some, GoString, ◌≟◌, bytes_eq,
  ◌==◌, leb, length, if◌then◌else◌, ◌&&◌, ◌||◌, to_lower, trim_space, has, keep,
}

unfoldable pub is_hex_digit : ℕ → Bool
is_hex_digit c =
    (leb b'0' c && leb c b'9') || (leb b'a' c && leb c b'f') || (leb b'A' c && leb c b'F')

unfoldable pub all_hex : List ℕ → Bool
unfolding is_hex_digit
all_hex [] = true
all_hex (c ∷ cs) = is_hex_digit c && all_hex cs

unfoldable pub has_shape : GoString → Bool
unfolding all_hex
has_shape (z ∷ x ∷ digits) =
    length (z ∷ x ∷ digits) == 42 && z == b'0' && (x == b'x' || x == b'X') && all_hex digits
has_shape _ = false

unfoldable pub normalize_trimmed : GoString → Option GoString
unfolding has_shape
normalize_trimmed s = if has_shape s then some (to_lower s) else none

unfoldable pub normalize_address : GoString → Option GoString
unfolding normalize_trimmed
normalize_address s = normalize_trimmed (trim_space s)

-- One round of NormalizeAddresses: `seen` and `out` hold the same addresses.
unfoldable pub add_new : List GoString → Option GoString → List GoString
add_new out none = out
add_new out (some addr) = if has addr out then out else out ++ addr ∷ []

unfoldable pub normalize_all : List GoString → List GoString → List GoString
unfolding normalize_address add_new
normalize_all out [] = out
normalize_all out (raw ∷ rest) = normalize_all (add_new out (normalize_address raw)) rest

unfoldable pub normalize_addresses : List GoString → List GoString
unfolding normalize_all
normalize_addresses addresses = normalize_all [] addresses

-- The set of watched addresses; `hex_to_address` is go-ethereum's.
module _ (hex_to_address : GoString → List ℕ) where
  unfoldable pub watch : List (List ℕ) → Option GoString → List (List ℕ)
  watch m none = m
  watch m (some n) = let a = hex_to_address n in if has a m then m else a ∷ m

  unfoldable pub unwatch : List (List ℕ) → Option GoString → List (List ℕ)
  unwatch m none = m
  unwatch m (some n) = keep (λ a. not (a ≟ hex_to_address n)) m

  unfoldable pub add_each : List (List ℕ) → List GoString → List (List ℕ)
  unfolding watch normalize_address
  add_each m [] = m
  add_each m (a ∷ rest) = add_each (watch m (normalize_address a)) rest

  unfoldable pub remove_each : List (List ℕ) → List GoString → List (List ℕ)
  unfolding unwatch normalize_address
  remove_each m [] = m
  remove_each m (a ∷ rest) = remove_each (unwatch m (normalize_address a)) rest

  -- `Set.Apply`.
  unfoldable pub apply : List (List ℕ) → List GoString → List GoString → List (List ℕ)
  unfolding add_each remove_each
  apply m added removed = remove_each (add_each m added) removed

-- `Set.Has`.
unfoldable pub watched : List (List ℕ) → List ℕ → Bool
watched m a = has a m
