-- ===== src/Dedup/GenSet/Retention.antt =====
-- How long GenSet remembers a key, and how much it holds.
use lobster_roll.Prelude.{
  has, ℕ, suc, ◌+◌, ◌*◌, ◌≤◌, ◌<◌, ◌≡◌, refl, ◌∙◌, ltb, if◌then◌else◌, ◌⊎◌, true, false, List, [],
  ◌∷◌, Eq, beq_refl, arith, length,
}
use lobster_roll.Dedup.GenSet.{GenSet, new_gen_sized, len, record_key, add, add_all}

-- The current generation is not full, and the old one holds no more than a generation.
pub record IsBounded {ℓ} {K : Type ℓ} (s : GenSet K) : Type 0 where
  pub cur_lt : length s.cur < s.max
  pub old_le : length s.old ≤ s.max

pub new_gen_sized-IsBounded {ℓ} : {K : Type ℓ} (max : ℕ) → IsBounded (new_gen_sized {K = K} max)
unfolding new_gen_sized
new_gen_sized-IsBounded max = ground arith

module _ {ℓ} {K : Type ℓ} ⦃e : Eq K⦄ where
  pub add-IsBounded : (s : GenSet K) (k : K) → IsBounded s → IsBounded (add s k).0
  unfolding add
  add-IsBounded s k b = ground arith

  add_all-IsBounded : (s : GenSet K) (ks : List K) → IsBounded s → IsBounded (add_all s ks)
  unfolding add_all
  add_all-IsBounded s [] b = b
  add_all-IsBounded s (k ∷ ks) b = add_all-IsBounded (add s k).0 ks (add-IsBounded s k b)

  add-max : (s : GenSet K) (k : K) → (add s k).0.max ≡ s.max
  unfolding add
  add-max s k = ground arith

  add_all-max : (s : GenSet K) (ks : List K) → (add_all s ks).max ≡ s.max
  unfolding add_all
  add_all-max s [] = refl
  add_all-max s (k ∷ ks) = add_all-max (add s k).0 ks ∙ add-max s k

  -- From a new set, after any keys were added, at most 2 * max keys are tracked, where a maximum
  -- below 1 counts as 1.
  pub len-add_all-le :
      (max : ℕ) (ks : List K)
      → len (add_all (new_gen_sized {K = K} max) ks) ≤ 2 * (if ltb max 1 then 1 else max)
  unfolding len new_gen_sized
  len-add_all-le max ks = omega (
    arith,
    add_all-IsBounded (new_gen_sized max) ks (new_gen_sized-IsBounded max),
    add_all-max (new_gen_sized max) ks,
  )

  -- What keeps a key remembered through `n` more keys.
  abbrev Lasts : ℕ → K → GenSet K → Type 0
  Lasts n k s = (has k s.cur ≡ true) ⊎ ((has k s.old ≡ true) × (length s.cur + n < s.max))

  add-Lasts :
      (n : ℕ) (k j : K) (s : GenSet K) → n < s.max → Lasts (suc n) k s → Lasts n k (add s j).0
  unfolding add has
  add-Lasts n k j s b l = ground arith

  add_all-Lasts :
      (k : K) (ks : List K) (s : GenSet K)
      → length ks < s.max
      → Lasts (length ks) k s
      → Lasts 0 k (add_all s ks)
  unfolding add_all
  add_all-Lasts k [] s b l = l
  add_all-Lasts k (j ∷ ks) s b l =
      add_all-Lasts k ks (add s j).0 (omega (arith, add-max s j))
        (add-Lasts (length ks) k j s (omega arith) l)

  add_starts :
      (n : ℕ) (k : K) (s : GenSet K)
      → IsBounded s
      → n < s.max
      → (add s k).1 ≡ true
      → Lasts n k (add s k).0
  unfolding add has
  add_starts n k s b h t = ground (arith, beq_refl k)

  Lasts-add : (k : K) (s : GenSet K) → Lasts 0 k s → (add s k).1 ≡ false
  unfolding add
  Lasts-add k s l = ground arith

  -- In a bounded set, a key that was newly added is still refused after fewer than max further
  -- keys, whichever they are.
  pub add-remembers :
      (s : GenSet K) (k : K) (ks : List K)
      → IsBounded s
      → (add s k).1 ≡ true
      → length ks < s.max
      → (add (add_all (add s k).0 ks) k).1 ≡ false
  add-remembers s k ks b new h = Lasts-add k _ (
      add_all-Lasts k ks (add s k).0 (omega (arith, add-max s k))
        (add_starts (length ks) k s b h new))

-- A key that was just added is not added again.
pub add-again {ℓ} : {K : Type ℓ} ⦃e : Eq K⦄ → (s : GenSet K) (k : K) → (add (add s k).0 k).1 ≡ false
unfolding add record_key has
add-again s k = ground (arith, beq_refl k)
