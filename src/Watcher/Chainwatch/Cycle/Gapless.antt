-- ===== src/Watcher/Chainwatch/Cycle/Gapless.antt =====
-- A cycle scans every block from the cursor to the head after the subscription.
use mathlib.Core.Path.{transport}
use mathlib.Core.List.{append_assoc, append-nil}
use lobster_roll.Prelude.{
  ℕ, suc, ◌+◌, ◌≤◌, ◌<◌, ◌^◌, ◌≡◌, ◌⊎◌, inl, inr, refl, sym, ◌∙◌, ap, Bool, true, false, List, [],
  ◌∷◌, ◌++◌, some, ltb, arith, Bool-cases,
}
use lobster_roll.Watcher.Chainwatch.{World, Watcher, start_block, backfill}
use lobster_roll.Watcher.Chainwatch.Ranges.{Tiles, Ends, backfill-Ends}
use lobster_roll.Watcher.Chainwatch.Cycle.{
  Answers, catch_up, after_subscribe, after_backfill, from_head, before_live,
}

Tiles-append :
    (start mid to : ℕ) (xs ys : List (ℕ × ℕ))
    → start ≤ mid + 1
    → mid ≤ to
    → Tiles start mid xs
    → Tiles (mid + 1) to ys
    → Tiles start to (xs ++ ys)
Tiles-append start mid to [] ys h k t u = transport (ap (λ n. Tiles n to ys) (meet start mid h t)) u
  where
    meet : (a b : ℕ) → a ≤ b + 1 → b < a → b + 1 ≡ a
    meet a b h t = omega arith
Tiles-append start mid to ((a, b) ∷ xs) ys h k (e, ab, bm, t) u =
    (e, ab, omega arith, Tiles-append (suc b) mid to xs ys (omega arith) k t u)

module _ (world : World) where
  open world use {chunk}

  -- How the scan of a range ends: with an error, or with queries that tile it.
  abbrev pub Scanned : Watcher → ℕ → ℕ → Watcher × Bool → Type 0
  Scanned w start to r =
      (r.1 ≡ false) ⊎ ((qs : List (ℕ × ℕ)) × (r.0.queries ≡ w.queries ++ qs) × Tiles start to qs)

  Scanned-Ends :
      (w : Watcher) (start to : ℕ) (r : Watcher × Bool)
      → Ends world w start to r
      → Scanned w start to r
  Scanned-Ends w start to r (inl failed) = inl failed
  Scanned-Ends w start to r (inr (qs, same, tiles, last)) = inr (qs, same, tiles)

  catch_up-Scanned :
      (n : ℕ) (w : Watcher) (head new_head : ℕ)
      → 1 ≤ chunk
      → head ≤ new_head
      → new_head + chunk < 2 ^ 64
      → new_head < head + 1 + n
      → (r : Watcher × Bool) × (catch_up world (suc n) w head new_head ≡ some r)
        × Scanned w (head + 1) new_head r
  unfolding catch_up
  catch_up-Scanned n w head new_head c le f h =
      let (r, e, ends) = backfill-Ends world n w (head + 1) new_head false c f h in
      elim (Bool-cases (ltb head new_head)) [
        | inl more ↦ (r, ground (arith, e), Scanned-Ends w (head + 1) new_head r ends)
        | inr none_new ↦
            ((w, true), ground arith, inr ([], sym (append-nil w.queries), ground arith))
      ]

  Scanned-append :
      (w v : Watcher) (start mid to : ℕ) (r : Watcher × Bool)
      → start ≤ mid + 1
      → mid ≤ to
      → Scanned w start mid (v, true)
      → Scanned v (mid + 1) to r
      → Scanned w start to r
  Scanned-append w v start mid to r h k (inl no_error) s = absurd cc
  Scanned-append w v start mid to r h k (inr (qs, same, t)) (inl failed) = inl failed
  Scanned-append w v start mid to r h k (inr (qs, same, t)) (inr (ps, more, u)) = inr (
    qs ++ ps,
    more ∙ ap (λ x. x ++ ps) same ∙ append_assoc w.queries qs ps,
    Tiles-append start mid to qs ps h k t u,
  )

  after_backfill-Scanned :
      (n : ℕ) (w : Watcher) (a : Answers) (start head new_head : ℕ) (r : Watcher × Bool)
      → 1 ≤ chunk
      → a.subscribed ≡ true
      → a.new_head ≡ some new_head
      → start ≤ head + 1
      → head ≤ new_head
      → new_head + chunk < 2 ^ 64
      → new_head < head + 1 + n
      → Scanned w start head r
      → (s : Watcher × Bool) × (after_backfill world (suc n) a head (some r) ≡ some s)
        × Scanned w start new_head s
  unfolding after_backfill after_subscribe
  after_backfill-Scanned n w a start head new_head (v, false) c sub new h k f m sc =
      ((v, false), refl, inl refl)
  after_backfill-Scanned n w a start head new_head (v, true) c sub new h k f m sc =
      let (s, e, t) = catch_up-Scanned n v head new_head c k f m in
      (s, rw (sub, new) e, Scanned-append w v start head new_head s h k sc t)

  before_live-backfill :
      (fuel : ℕ) (w : Watcher) (a : Answers) (head : ℕ)
      → a.head ≡ some head
      → a.cursor_read ≡ true
      → before_live world fuel w a
        ≡ after_backfill world fuel a head
            (backfill world fuel w (start_block world w head) head true)
  unfolding before_live from_head
  before_live-backfill fuel w a head top read = ground arith

  -- A cycle in which the head, the cursor, the subscription and the later head are answered reaches
  -- the live loop or ends with an error, within a round for each block. If it reaches the live
  -- loop, its queries tile the blocks from the cursor's next one to the later head: no block that was
  -- mined during the backfill is missed. The cursor is not above the head, the later head is not
  -- below it, the chunk is not 0 and the numbers stay below 2 ^ 64.
  pub before_live-Scanned :
      (n : ℕ) (w : Watcher) (a : Answers) (head new_head : ℕ)
      → 1 ≤ chunk
      → a.head ≡ some head
      → a.cursor_read ≡ true
      → a.subscribed ≡ true
      → a.new_head ≡ some new_head
      → start_block world w head ≤ head + 1
      → head ≤ new_head
      → new_head + chunk < 2 ^ 64
      → new_head < start_block world w head + n
      → (r : Watcher × Bool) × (before_live world (suc n) w a ≡ some r)
        × Scanned w (start_block world w head) new_head r
  before_live-Scanned n w a head new_head c top read sub new h k f m =
      let start = start_block world w head in
      let (r, e, ends) = backfill-Ends world n w start head true c (omega arith) (omega arith) in
      let (s, same, t) =
        after_backfill-Scanned n w a start head new_head r c sub new h k f (omega arith)
          (Scanned-Ends w start head r ends) in
      (
        s,
        before_live-backfill (suc n) w a head top read
            ∙ ap (after_backfill world (suc n) a head) e
            ∙ same,
        t,
      )
