-- ===== src/Watcher/Chainwatch/Ranges.antt =====
-- The backfill ends, and queries every block of its range once, in order.
use mathlib.Core.Path.{transport}
use mathlib.Core.List.{append-nil, append_assoc}
use lobster_roll.Prelude.{
  ℕ, zero, suc, ◌+◌, ◌-◌, ◌%◌, ◌^◌, ◌≤◌, ◌<◌, ◌≡◌, ◌⊎◌, inl, inr, refl, ◌∙◌, ap, sym, Bool, true,
  false, List, [], ◌∷◌, ◌++◌, Option, some, none, ltb, if◌then◌else◌, if_cases, arith, Bool-cases,
}
use lobster_roll.Watcher.Decode.{Log}
use lobster_roll.Watcher.Engine.{process_batch as process_logs}
use lobster_roll.Watcher.Chainwatch.{
  World, Watcher, emit, emit_all, advance, finish, process_batch, chunk_end, scan_chunk, query,
  backfill,
}
use lobster_roll.Watcher.Chainwatch.Publish.{process_batch-done}

-- The ranges, one after the other, are the blocks from the first number to the second.
abbrev pub Tiles : ℕ → ℕ → List (ℕ × ℕ) → Type 0
Tiles start to [] = to < start
Tiles start to ((a, b) ∷ rest) = (a ≡ start) × (a ≤ b) × (b ≤ to) × Tiles (suc b) to rest

Tiles-past : (s to : ℕ) (qs : List (ℕ × ℕ)) → to < s → Tiles s to qs → Tiles (suc to) to qs
Tiles-past s to [] h t = omega arith
Tiles-past s to ((a, b) ∷ rest) h (e, ab, bt, t) = absurd (omega arith)

module _ (world : World) where
  open world use {chunk}

  chunk_end-min :
      (start to : ℕ)
      → 1 ≤ chunk
      → start ≤ to
      → to + chunk < 2 ^ 64
      → chunk_end world start to ≡ (if ltb to (start + chunk - 1) then to else start + chunk - 1)
  unfolding chunk_end
  chunk_end-min start to c s f =
      let e : (start + chunk + (2 ^ 64 - 1)) % 2 ^ 64 ≡ start + chunk - 1 = omega arith in rw e

  emit_all-queries :
      (w : Watcher) (trs : _) (b : Bool) → (emit_all world w trs b).0.queries ≡ w.queries
  unfolding emit_all emit
  emit_all-queries w [] b = refl
  emit_all-queries w (t ∷ trs) b = ground (arith, emit_all-queries (emit world w t b).0 trs b)

  process_batch-queries :
      (w : Watcher) (logs : List Log) (block : ℕ) (adv b : Bool)
      → (process_batch world w logs block adv b).0.queries ≡ w.queries
  unfolding process_batch finish advance
  process_batch-queries w [] block adv b = ground arith
  process_batch-queries w (l ∷ ls) block adv b =
      let r = process_logs world.eth world.set w.seen (l ∷ ls) in
      ground (arith, emit_all-queries w r.0 b)

  scan_chunk-done :
      (w : Watcher) (start last : ℕ) (b : Bool) (r : Option (List Log))
      → (scan_chunk world w start last b r).1 ≡ true
      → ((scan_chunk world w start last b r).0.queries ≡ w.queries)
        × ((scan_chunk world w start last b r).0.cursor ≡ some last)
  unfolding scan_chunk
  scan_chunk-done w start last b none h = cc
  scan_chunk-done w start last b (some logs) h =
      (process_batch-queries w logs last true b, (process_batch-done world w logs last b h).0)

  query-done :
      (w : Watcher) (start last : ℕ) (b : Bool)
      → (query world w start last b).1 ≡ true
      → ((query world w start last b).0.queries ≡ w.queries ++ (start, last) ∷ [])
        × ((query world w start last b).0.cursor ≡ some last)
  unfolding query
  query-done w start last b h =
      scan_chunk-done (record w { queries = w.queries ++ (start, last) ∷ [] }) start last b _ h

  -- How a backfill ends: with an error, or with queries that tile the range and the cursor at its
  -- last block.
  abbrev pub Ends : Watcher → ℕ → ℕ → Watcher × Bool → Type 0
  Ends w start to r =
      (r.1 ≡ false)
      ⊎ ((qs : List (ℕ × ℕ)) × (r.0.queries ≡ w.queries ++ qs)
          × Tiles start to qs
          × ((to < start) ⊎ (r.0.cursor ≡ some to)))

  chunk_end-Tiles :
      (start to : ℕ) (qs : List (ℕ × ℕ))
      → 1 ≤ chunk
      → start ≤ to
      → to + chunk < 2 ^ 64
      → Tiles (start + chunk) to qs
      → Tiles start to ((start, chunk_end world start to) ∷ qs)
  chunk_end-Tiles start to qs c s f tiles = rw (chunk_end-min start to c s f) (
      if_cases (λ e. Tiles start to ((start, e) ∷ qs)) (ltb to (start + chunk - 1)) to
        (start + chunk - 1)
        (λ h. (refl, s, omega arith, Tiles-past (start + chunk) to qs (ground arith) tiles))
        (λ h. (
          refl,
          omega arith,
          ground arith,
          next_start (start + chunk) (suc (start + chunk - 1)) (omega arith) tiles,
        )))
    where
      next_start : (a b : ℕ) → a ≡ b → Tiles a to qs → Tiles b to qs
      next_start a b e t = transport (ap (λ n. Tiles n to qs) e) t

  chunk_end-last :
      (start to : ℕ)
      → 1 ≤ chunk
      → start ≤ to
      → to + chunk < 2 ^ 64
      → to < start + chunk
      → chunk_end world start to ≡ to
  chunk_end-last start to c s f h = ground (arith, chunk_end-min start to)

  Ends-cons :
      (w v : Watcher) (start to : ℕ) (r : Watcher × Bool)
      → 1 ≤ chunk
      → start ≤ to
      → to + chunk < 2 ^ 64
      → v.queries ≡ w.queries ++ (start, chunk_end world start to) ∷ []
      → v.cursor ≡ some (chunk_end world start to)
      → ((to < start + chunk) → r ≡ (v, true))
      → Ends v (start + chunk) to r
      → Ends w start to r
  Ends-cons w v start to r c s f q e stop (inl failed) = inl failed
  Ends-cons w v start to r c s f q e stop (inr (qs, same, tiles, last)) = inr (
    (start, chunk_end world start to) ∷ qs,
    same ∙ ap (λ x. x ++ qs) q ∙ append_assoc w.queries ((start, chunk_end world start to) ∷ []) qs,
    chunk_end-Tiles start to qs c s f tiles,
    inr (cursor_of last),
  )
    where
      cursor_of : ((to < start + chunk) ⊎ (r.0.cursor ≡ some to)) → r.0.cursor ≡ some to
      cursor_of (inl h) =
          ap (λ x. x.0.cursor) (stop h) ∙ e ∙ ap some (chunk_end-last start to c s f h)
      cursor_of (inr h) = h

  backfill-stop :
      (n : ℕ) (w : Watcher) (start to : ℕ) (b : Bool)
      → to < start
      → backfill world (suc n) w start to b ≡ some (w, true)
  unfolding backfill
  backfill-stop n w start to b h = ground arith

  backfill-next :
      (n : ℕ) (w : Watcher) (start to : ℕ) (b : Bool)
      → start ≤ to
      → to + chunk < 2 ^ 64
      → (query world w start (chunk_end world start to) b).1 ≡ true
      → backfill world (suc n) w start to b
        ≡ backfill world n (query world w start (chunk_end world start to) b).0 (start + chunk) to b
  unfolding backfill
  backfill-next n w start to b h f ok =
      let e : (start + chunk) % 2 ^ 64 ≡ start + chunk = omega arith in rw e (ground arith)

  backfill-failed :
      (n : ℕ) (w : Watcher) (start to : ℕ) (b : Bool)
      → start ≤ to
      → (query world w start (chunk_end world start to) b).1 ≡ false
      → backfill world (suc n) w start to b
        ≡ some ((query world w start (chunk_end world start to) b).0, false)
  unfolding backfill
  backfill-failed n w start to b h no_more = ground arith

  Ends-nil : (w : Watcher) (start to : ℕ) → to < start → Ends w start to (w, true)
  Ends-nil w start to h = inr ([], sym (append-nil w.queries), h, inl h)

  backfill-round :
      (n : ℕ) (w : Watcher) (start to : ℕ) (b : Bool)
      → 1 ≤ chunk
      → start ≤ to
      → to + chunk < 2 ^ 64
      → (query world w start (chunk_end world start to) b).1 ≡ true
      → let v = (query world w start (chunk_end world start to) b).0 in
        (r : Watcher × Bool)
        → backfill world (suc n) v (start + chunk) to b ≡ some r
        → Ends v (start + chunk) to r
        → (backfill world (suc (suc n)) w start to b ≡ some r) × Ends w start to r
  backfill-round n w start to b c s f ok r e ends =
      let v = (query world w start (chunk_end world start to) b).0 in
      let (q, last) = query-done w start (chunk_end world start to) b ok in
      (
        backfill-next (suc n) w start to b s f ok ∙ e,
        Ends-cons w v start to r c s f q last
            (λ h. ground (arith, backfill-stop n v (start + chunk) to b h, e)) ends,
      )

  -- A backfill ends within a round for each block of its range and one more. It ends with an error,
  -- or its queries tile the range from its first to its last block, and the cursor stands at the
  -- last one. The chunk is not 0 and the numbers stay below 2 ^ 64.
  pub backfill-Ends :
      (n : ℕ) (w : Watcher) (start to : ℕ) (b : Bool)
      → 1 ≤ chunk
      → to + chunk < 2 ^ 64
      → to < start + n
      → (r : Watcher × Bool) × (backfill world (suc n) w start to b ≡ some r) × Ends w start to r
  backfill-Ends zero w start to b c f h =
      ((w, true), backfill-stop 0 w start to b (omega arith), Ends-nil w start to (omega arith))
  backfill-Ends (suc n) w start to b c f h =
      let v = (query world w start (chunk_end world start to) b).0 in
      let (r, e, ends) = backfill-Ends n v (start + chunk) to b c f (omega arith) in
      elim (Bool-cases (ltb to start)) [
        | inl past ↦ (
          (w, true),
          backfill-stop (suc n) w start to b (ground arith),
          Ends-nil w start to (ground arith),
        )
        | inr inside ↦ elim (Bool-cases (query world w start (chunk_end world start to) b).1) [
          | inl ok ↦
              let (same, done) = backfill-round n w start to b c (ground arith) f ok r e ends in
              (r, same, done)
          | inr failed ↦
              ((v, false), backfill-failed (suc n) w start to b (ground arith) failed, inl refl)
        ]
      ]
