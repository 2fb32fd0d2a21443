-- ===== src/Dedup/TtlSet/Expiry.antt =====
-- How long TTLSet suppresses a key, whatever else happens to the set.
use lobster_roll.Prelude.{
  ℕ, ◌+◌, ◌<◌, ◌≡◌, Bool, true, false, List, [], ◌∷◌, none, some, Eq, ◌≟◌, lookup, insert, keep,
  lookup-insert, lookup-delete, All, beq_refl, eq_of_beq, arith, ltb, if◌then◌else◌,
}
use lobster_roll.Dedup.TtlSet.{TtlSet, sweep, is_live, add, remove}

-- A call by some client: `Add` at a time, or `Remove`.
pub data Call {ℓ} (K : Type ℓ) : Type ℓ where
  adds : ℕ → K → Call K
  removes : K → Call K

module _ {ℓ} {K : Type ℓ} ⦃e : Eq K⦄ where
  pub run : TtlSet K → List (Call K) → TtlSet K
  run s [] = s
  run s (adds now k ∷ cs) = run (add s now k).0 cs
  run s (removes k ∷ cs) = run (remove s k) cs

  -- The call is made before the deadline, and does not remove the key.
  abbrev pub Spares : K → ℕ → Call K → Type 0
  Spares k deadline (adds now j) = now < deadline
  Spares k deadline (removes j) = (j ≟ k) ≡ false

  lookup-keep :
      (k : K) (p : K × ℕ → Bool) (v : ℕ) (m : List (K × ℕ))
      → ((j : K) → p (j, v) ≡ true)
      → lookup k m ≡ some v
      → lookup k (keep p m) ≡ some v
  unfolding lookup keep
  lookup-keep k p v [] live h = cc
  lookup-keep k p v ((j, w) ∷ m) live h = ground (arith, live j, lookup-keep k p v m live)

  sweep-keeps :
      (s : TtlSet K) (now v : ℕ) (k : K)
      → now < v
      → lookup k s.exp ≡ some v
      → lookup k (sweep s now).exp ≡ some v
  unfolding sweep
  sweep-keeps s now v k h l =
      ground (arith, lookup-keep k (λ r. ltb now r.1) v s.exp (λ j. ground arith) l)

  pub add-keeps :
      (s : TtlSet K) (now v : ℕ) (k j : K)
      → now < v
      → lookup k s.exp ≡ some v
      → lookup k (add s now j).0.exp ≡ some v
  unfolding add
  add-keeps s now v k j h l = ground (
    arith,
    eq_of_beq j k,
    sweep-keeps (record s { exp = insert j (now + s.ttl) s.exp }) now v k h,
    lookup-insert j k (now + s.ttl) s.exp,
  )

  run-keeps :
      (cs : List (Call K)) (s : TtlSet K) (v : ℕ) (k : K)
      → All (Spares k v) cs
      → lookup k s.exp ≡ some v
      → lookup k (run s cs).exp ≡ some v
  unfolding run remove
  run-keeps [] s v k a l = l
  run-keeps (adds now j ∷ cs) s v k (h, a) l =
      run-keeps cs (add s now j).0 v k a (add-keeps s now v k j h l)
  run-keeps (removes j ∷ cs) s v k (h, a) l =
      run-keeps cs (remove s j) v k a (ground (arith, lookup-delete j k s.exp))

  pub add-lookup :
      (s : TtlSet K) (now : ℕ) (k : K)
      → 0 < s.ttl
      → (add s now k).1 ≡ true
      → lookup k (add s now k).0.exp ≡ some (now + s.ttl)
  unfolding add
  add-lookup s now k pos h = ground (
    arith,
    beq_refl k,
    sweep-keeps (record s { exp = insert k (now + s.ttl) s.exp }) now (now + s.ttl) k,
    lookup-insert k k (now + s.ttl) s.exp,
  )

  pub live-refused :
      (s : TtlSet K) (now v : ℕ) (k : K)
      → now < v
      → lookup k s.exp ≡ some v
      → (add s now k).1 ≡ false
  unfolding add is_live
  live-refused s now v k h l = ground arith

  pub remove-keeps :
      (s : TtlSet K) (k j : K) (v : ℕ)
      → (j ≟ k) ≡ false
      → lookup k s.exp ≡ some v
      → lookup k (remove s j).exp ≡ some v
  unfolding remove
  remove-keeps s k j v n l = ground (arith, lookup-delete j k s.exp)

  -- After a key was newly added, and until its time to live is over, the key is refused again,
  -- whatever calls come between, as long as each `Add` among them reads a time before the deadline
  -- and none removes the key.
  pub add-suppresses :
      (s : TtlSet K) (now later : ℕ) (k : K) (cs : List (Call K))
      → (add s now k).1 ≡ true
      → later < now + s.ttl
      → 0 < s.ttl
      → All (Spares k (now + s.ttl)) cs
      → (add (run (add s now k).0 cs) later k).1 ≡ false
  add-suppresses s now later k cs new h pos a =
      live-refused _ later (now + s.ttl) k h
        (run-keeps cs (add s now k).0 (now + s.ttl) k a (add-lookup s now k pos new))

  -- A key that was removed is accepted again at any time, and the removal leaves the entry of every
  -- other key alone.
  pub add-remove :
      (s : TtlSet K) (now : ℕ) (k j : K)
      → ((add (remove s k) now k).1 ≡ true)
        × (lookup j (remove s k).exp ≡ (if k ≟ j then none else lookup j s.exp))
  unfolding add remove is_live
  add-remove s now k j =
      (ground (arith, lookup-delete k k s.exp, beq_refl k), lookup-delete k j s.exp)
