-- ===== src/Watcher/Address/Tests.antt =====
-- Runs on an address in mixed case.
use lobster_roll.Prelude.{
  ◌≡◌, refl, true, false, [], ◌∷◌, some, codes, GoString, has, Distinct, if◌then◌else◌, to_lower,
  trim_space, trim_left, bytes_eq,
}
use lobster_roll.Watcher.Address.{
  normalize_address, normalize_trimmed, has_shape, all_hex, is_hex_digit, normalize_addresses,
  apply, watched,
}
use lobster_roll.Watcher.Address.Canonical.{
  normalize_address-canonical, normalize_addresses-Distinct, mentions,
}
use lobster_roll.Watcher.Address.Watched.{watched-apply, names}

abbrev mixed : GoString
mixed = codes " 0XABcdef0123456789ABCDEF0123456789abcdef01"

abbrev canonical : GoString
canonical = codes "0xabcdef0123456789abcdef0123456789abcdef01"

mixed_run : normalize_address mixed ≡ some canonical
unfolding normalize_address normalize_trimmed has_shape all_hex is_hex_digit to_lower trim_space
    trim_left
mixed_run = refl

normalize_address-canonical_run :
    (normalize_address canonical ≡ some canonical)
    × (has_shape canonical ≡ true)
    × (to_lower canonical ≡ canonical)
normalize_address-canonical_run = normalize_address-canonical mixed canonical mixed_run

normalize_addresses-Distinct_run :
    Distinct (normalize_addresses (mixed ∷ canonical ∷ []))
    × (has canonical (normalize_addresses (mixed ∷ canonical ∷ []))
        ≡ mentions canonical (mixed ∷ canonical ∷ []))
normalize_addresses-Distinct_run = normalize_addresses-Distinct (mixed ∷ canonical ∷ []) canonical

watched-apply_run : watched (apply (λ s. s) [] (mixed ∷ []) []) canonical ≡ (
    if names (λ s. s) canonical []
    then false
    else if watched [] canonical
    then true
    else names (λ s. s) canonical (mixed ∷ []))
watched-apply_run = watched-apply (λ s. s) [] (mixed ∷ []) [] canonical
