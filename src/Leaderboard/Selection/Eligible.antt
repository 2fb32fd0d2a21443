-- ===== src/Leaderboard/Selection/Eligible.antt =====
-- Who is selected.
use lobster_roll.Prelude.{
  ℕ, zero, suc, ◌≤◌, ◌≡◌, ◌⊎◌, refl, ◌∙◌, Bool, true, false, List, [], ◌∷◌, Option, none, some,
  GoString, ◌≟◌, bytes_eq, length, take, lookup, has, sort_by, insert_by, pos, negsuc, ◌||◌, ◌&&◌,
  arith,
}
use lobster_roll.Float.{Float}
use lobster_roll.Leaderboard.Selection.{
  Candidate, Stats, Criteria, Scored, meets, ranks_before, add_scored, pool_of, truncated, wallets,
  select,
}

module _ {ℓ} {F : Type ℓ} ⦃d : Float F⦄ where
  -- The statistics are known and clear every gate.
  pub passes : Criteria F → Option (Stats F) → Bool
  passes crit none = false
  passes crit (some st) = meets crit st

  -- Whether the wallet is a candidate whose statistics pass.
  pub eligible : List (GoString × Stats F) → Criteria F → GoString → List (Candidate F) → Bool
  unfolding passes
  eligible stats crit w [] = false
  eligible stats crit w (c ∷ cs) =
      (c.wallet ≟ w && passes crit (lookup c.wallet stats)) || eligible stats crit w cs

  has-add_scored :
      (crit : Criteria F) (w v : GoString) (o : Option (Stats F)) (pool : List (Scored F))
      → has w (wallets (add_scored crit v o pool))
        ≡ ((v ≟ w && passes crit o) || has w (wallets pool))
  unfolding add_scored wallets has passes
  has-add_scored crit w v none pool = ground arith
  has-add_scored crit w v (some st) pool = ground arith

  has-pool_of :
      (stats : List (GoString × Stats F)) (crit : Criteria F) (w : GoString)
      (cs : List (Candidate F))
      → has w (wallets (pool_of stats crit cs)) ≡ eligible stats crit w cs
  unfolding pool_of eligible wallets has
  has-pool_of stats crit w [] = refl
  has-pool_of stats crit w (c ∷ cs) = ground (
    arith,
    has-add_scored crit w c.wallet (lookup c.wallet stats) (pool_of stats crit cs),
    has-pool_of stats crit w cs,
  )

  has-insert_by_wallet :
      (w : GoString) (s : Scored F) (pool : List (Scored F))
      → has w (wallets (insert_by ranks_before s pool)) ≡ (s.wallet ≟ w || has w (wallets pool))
  unfolding insert_by wallets has
  has-insert_by_wallet w s [] = refl
  has-insert_by_wallet w s (t ∷ pool) = ground (arith, has-insert_by_wallet w s pool)

  has-sort_by_wallet :
      (w : GoString) (pool : List (Scored F))
      → has w (wallets (sort_by ranks_before pool)) ≡ has w (wallets pool)
  unfolding sort_by wallets has
  has-sort_by_wallet w [] = refl
  has-sort_by_wallet w (s ∷ pool) =
      ground
        (arith, has-insert_by_wallet w s (sort_by ranks_before pool), has-sort_by_wallet w pool)

  has-take :
      (w : GoString) (n : ℕ) (pool : List (Scored F))
      → has w (wallets (take n pool)) ≡ true
      → has w (wallets pool) ≡ true
  unfolding wallets has
  has-take w zero pool h = absurd cc
  has-take w (suc n) [] h = absurd cc
  has-take w (suc n) (s ∷ pool) h = ground (arith, has-take w n pool)

  length-take-le : (n : ℕ) (pool : List (Scored F)) → length (wallets (take n pool)) ≤ n
  unfolding wallets
  length-take-le zero pool = omega arith
  length-take-le (suc n) [] = omega arith
  length-take-le (suc n) (s ∷ pool) = omega (arith, length-take-le n pool)

  length-wallets : (pool : List (Scored F)) → length (wallets pool) ≡ length pool
  unfolding wallets
  length-wallets [] = refl
  length-wallets (s ∷ pool) = omega (arith, length-wallets pool)

  -- With a bound, no more wallets than the bound are selected, and only eligible ones; without one,
  -- exactly the eligible ones are.
  pub select-eligible :
      (cs : List (Candidate F)) (stats : List (GoString × Stats F)) (crit : Criteria F)
      → (w : GoString) (n k : ℕ)
      → (length (select cs stats crit (pos n)) ≤ n)
        × ((has w (select cs stats crit (pos n)) ≡ false) ⊎ (eligible stats crit w cs ≡ true))
        × (has w (select cs stats crit (negsuc k)) ≡ eligible stats crit w cs)
  unfolding select truncated
  select-eligible cs stats crit w n k =
      let pool = sort_by ranks_before (pool_of stats crit cs) in
      let same = has-sort_by_wallet w (pool_of stats crit cs) ∙ has-pool_of stats crit w cs in
      (
        ground (arith, length-take-le n pool, length-wallets pool),
        ground (arith, has-take w n pool, same),
        same,
      )
