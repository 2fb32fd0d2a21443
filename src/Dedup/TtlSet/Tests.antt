-- ===== src/Dedup/TtlSet/Tests.antt =====
-- The theorems on TTLSet at concrete inputs.
use lobster_roll.Prelude.{ℕ, ◌≡◌, refl, true, false, none, [], ◌∷◌, arith, nat_eq, lookup, insert}
use lobster_roll.Dedup.TtlSet.{new_ttl, add, remove, sweep}
use lobster_roll.Dedup.TtlSet.Expiry.{adds, removes, run, add-suppresses, add-remove}

add-suppresses_run :
    (add (run (add (new_ttl {K = ℕ} 100) 5 1).0 (adds 20 2 ∷ removes 2 ∷ adds 30 1 ∷ [])) 104 1).1
    ≡ false
unfolding new_ttl add lookup
add-suppresses_run =
    add-suppresses (new_ttl {K = ℕ} 100) 5 104 1 (adds 20 2 ∷ removes 2 ∷ adds 30 1 ∷ []) refl
      (omega arith) (omega arith) (omega arith, (refl, (omega arith, tt)))

add-remove_run :
    ((add (remove (add (new_ttl {K = ℕ} 100) 5 1).0 1) 6 1).1 ≡ true)
    × (lookup 2 (remove (add (new_ttl {K = ℕ} 100) 5 1).0 1).exp ≡ none)
unfolding new_ttl add lookup sweep insert
add-remove_run = add-remove (add (new_ttl {K = ℕ} 100) 5 1).0 6 1 2
