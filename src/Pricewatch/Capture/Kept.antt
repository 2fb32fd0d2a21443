-- ===== src/Pricewatch/Capture/Kept.antt =====
-- A traded token stays in the tracker, and a snapshot in its table.
use lobster_roll.Prelude.{
  ℕ, ◌+◌, ◌≤◌, ◌≡◌, Bool, true, false, List, [], ◌∷◌, Option, none, some, GoString, ◌≟◌, bytes_eq,
  ◌==◌, leb, insert, keep, eq_of_beq, beq_of_eq, beq_refl, Bool-cases, inl, inr, ◌&&◌, ◌||◌, arith,
}
use lobster_roll.Pricewatch.Snapshots.{Row, put, prune}
use lobster_roll.Pricewatch.Capture.{Prices, live, stored, snapshot, snapshot_all}

-- The tracker has the token, traded at `since` or later.
unfoldable pub has : ℕ → GoString → List (GoString × ℕ) → Bool
has since token [] = false
has since token ((j, last) ∷ m) = (j ≟ token && leb since last) || has since token m

pub has-insert :
    (since now : ℕ) (token k : GoString) (m : List (GoString × ℕ))
    → since ≤ now
    → has since token m ≡ true
    → has since token (insert k now m) ≡ true
unfolding has insert
has-insert since now token k [] le h = ground arith
has-insert since now token k ((j, last) ∷ m) le h =
    ground (
      arith,
      eq_of_beq j k,
      eq_of_beq j token,
      beq_of_eq k token,
      has-insert since now token k m le,
    )

pub has-insert-own :
    (now : ℕ) (token : GoString) (m : List (GoString × ℕ))
    → has now token (insert token now m) ≡ true
unfolding has insert
has-insert-own now token [] = ground (arith, beq_refl token)
has-insert-own now token ((j, last) ∷ m) =
    ground (arith, beq_refl token, has-insert-own now token m)

pub has-live :
    (since ttl now : ℕ) (token : GoString) (m : List (GoString × ℕ))
    → now ≤ since + ttl
    → has since token m ≡ true
    → has since token (live ttl now m) ≡ true
unfolding has live keep
has-live since ttl now token [] le h = h
has-live since ttl now token ((j, last) ∷ m) le h =
    ground (arith, has-live since ttl now token m le)

module _ {ℓ} {F : Type ℓ} where
  -- The table has a row of the token at the time.
  unfoldable pub held : GoString → ℕ → List (Row F) → Bool
  held token ts [] = false
  held token ts (r ∷ rows) = (r.token_id ≟ token && r.ts == ts) || held token ts rows

  held-put :
      (r : Row F) (token : GoString) (ts : ℕ) (rows : List (Row F))
      → held token ts rows ≡ true
      → held token ts (put r rows) ≡ true
  unfolding held put
  held-put r token ts [] h = ground arith
  held-put r token ts (q ∷ rows) h = ground (
    arith,
    eq_of_beq q.token_id r.token_id,
    eq_of_beq q.token_id token,
    beq_of_eq r.token_id token,
    held-put r token ts rows,
  )

  held-put-own : (r : Row F) (rows : List (Row F)) → held r.token_id r.ts (put r rows) ≡ true
  unfolding held put
  held-put-own r [] = ground (arith, beq_refl r.token_id)
  held-put-own r (q ∷ rows) = ground (arith, beq_refl r.token_id, held-put-own r rows)

  pub held-prune :
      (cutoff : ℕ) (token : GoString) (ts : ℕ) (rows : List (Row F))
      → cutoff ≤ ts
      → held token ts rows ≡ true
      → held token ts (prune cutoff rows) ≡ true
  unfolding held prune keep
  held-prune cutoff token ts [] le h = h
  held-prune cutoff token ts (q ∷ rows) le h = ground (arith, held-prune cutoff token ts rows le)

  held-stored :
      (ok : Bool) (r : Row F) (token : GoString) (ts : ℕ) (rows : List (Row F))
      → held token ts rows ≡ true
      → held token ts (stored ok r rows) ≡ true
  unfolding stored
  held-stored false r token ts rows h = h
  held-stored true r token ts rows h = held-put r token ts rows h

  held-snapshot :
      (p : Prices F) (now : ℕ) (k : GoString) (o : Option F) (token : GoString) (ts : ℕ)
      (rows : List (Row F))
      → held token ts rows ≡ true
      → held token ts (snapshot p now k o rows) ≡ true
  unfolding snapshot
  held-snapshot p now k none token ts rows h = h
  held-snapshot p now k (some mid) token ts rows h =
      held-stored (p.put_ok k) (record { token_id = k; ts = now; mid = mid }) token ts rows h

  pub held-snapshot_all :
      (p : Prices F) (now : ℕ) (m : List (GoString × ℕ)) (token : GoString) (ts : ℕ)
      (rows : List (Row F))
      → held token ts rows ≡ true
      → held token ts (snapshot_all p now m rows) ≡ true
  unfolding snapshot_all
  held-snapshot_all p now [] token ts rows h = h
  held-snapshot_all p now ((k, last) ∷ m) token ts rows h =
      held-snapshot_all p now m token ts (snapshot p now k (p.midpoint k) rows)
        (held-snapshot p now k (p.midpoint k) token ts rows h)

  held-snapshot-own :
      (p : Prices F) (now : ℕ) (k token : GoString) (mid : F) (rows : List (Row F))
      → k ≡ token
      → p.midpoint token ≡ some mid
      → p.put_ok token ≡ true
      → held token now (snapshot p now k (p.midpoint k) rows) ≡ true
  unfolding snapshot stored
  held-snapshot-own p now k token mid rows same e ok =
      rw (same, e, ok) (held-put-own (record { token_id = token; ts = now; mid = mid }) rows)

  -- A poll that reaches a token it can quote and store leaves its row.
  pub snapshot_all-held :
      (p : Prices F) (since now : ℕ) (token : GoString) (mid : F) (m : List (GoString × ℕ))
      (rows : List (Row F))
      → has since token m ≡ true
      → p.midpoint token ≡ some mid
      → p.put_ok token ≡ true
      → held token now (snapshot_all p now m rows) ≡ true
  unfolding has snapshot_all
  snapshot_all-held p since now token mid [] rows h e ok = ground arith
  snapshot_all-held p since now token mid ((k, last) ∷ m) rows h e ok =
      let one = snapshot p now k (p.midpoint k) rows in
      elim (Bool-cases (k ≟ token)) [
        | inl hit ↦
            held-snapshot_all p now m token now one
              (held-snapshot-own p now k token mid rows (eq_of_beq k token hit) e ok)
        | inr miss ↦ snapshot_all-held p since now token mid m one (ground (arith, h, miss)) e ok
      ]
