-- ===== src/Dedup/GenSet/Tests.antt =====
-- Runs of GenSet, and its theorems at concrete inputs.
use lobster_roll.Prelude.{has, ℕ, ◌*◌, ◌≤◌, ◌≡◌, refl, false, [], ◌∷◌, arith, nat_eq}
use lobster_roll.Dedup.GenSet.{GenSet, new_gen_sized, len, add, add_all}
use lobster_roll.Dedup.GenSet.Retention.{len-add_all-le, add-remembers}

abbrev small : GenSet ℕ
small = record { cur = []; old = []; max = 3 }

-- A generation of two: 8 is still known after 9.
still_known : (add (add_all (new_gen_sized {K = ℕ} 2) (6 ∷ 7 ∷ 8 ∷ 9 ∷ [])) 8).1 ≡ false
unfolding add add_all new_gen_sized has
still_known = refl

len-add_all-le_run : len (add_all (new_gen_sized {K = ℕ} 2) (6 ∷ 7 ∷ 7 ∷ 9 ∷ [])) ≤ 2 * 2
len-add_all-le_run = len-add_all-le 2 (6 ∷ 7 ∷ 7 ∷ 9 ∷ [])

add-remembers_run : (add (add_all (add small 4).0 (5 ∷ 6 ∷ [])) 4).1 ≡ false
unfolding add has
add-remembers_run = add-remembers small 4 (5 ∷ 6 ∷ []) (omega arith) refl (omega arith)
