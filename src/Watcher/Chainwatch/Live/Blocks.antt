-- ===== src/Watcher/Chainwatch/Live/Blocks.antt =====
-- The live loop keeps the logs of one block together, and moves the cursor to complete blocks only.
use mathlib.Core.Path.{subst}
use lobster_roll.Prelude.{
  ℕ, sym, ◌<◌, ◌≤◌, ◌≡◌, ◌⊎◌, inl, inr, refl, ◌∙◌, ap, Bool, true, false, not, List, [], ◌∷◌, ◌++◌,
  some, ltb, if◌then◌else◌, if_cases, ◌&&◌, All, All-append, arith,
}
use lobster_roll.Watcher.Decode.{Log}
use lobster_roll.Watcher.Chainwatch.{World, Watcher, process_batch}
use lobster_roll.Watcher.Chainwatch.Publish.{
  process_batch-failed, process_batch-done, process_batch-parked,
}
use lobster_roll.Watcher.Chainwatch.Live.{
  Event, arrives, tick, cancelled, closed, Live, Next, running, stopped, is_empty, buffered, flush,
  arrive, on_tick, drain, live_step, continue, run_live,
}

-- The buffer holds logs of the pending block only.
abbrev pub IsAligned : Live → Type 0
IsAligned s = All (λ l. l.block_number ≡ s.pending_block) s.buf

abbrev pub Aligned : Next → Type 0
Aligned (running s) = IsAligned s
Aligned (stopped w ok) = Unit {0}

single-All :
    (P : Log → Type 0) (ls : List Log) (l : Log) → is_empty ls ≡ true → P l → All P (ls ++ l ∷ [])
unfolding is_empty
single-All P [] l e p = (p, tt)
single-All P (x ∷ ls) l e p = absurd cc

buffered-IsAligned :
    (s : Live) (l : Log)
    → IsAligned s
    → s.pending_block ≤ l.block_number
    → (is_empty s.buf ≡ true) ⊎ (l.block_number ≡ s.pending_block)
    → IsAligned (buffered s l)
unfolding buffered
buffered-IsAligned s l a h (inl e) =
    let pending = if ltb s.pending_block l.block_number then l.block_number else s.pending_block in
    single-All (λ x. x.block_number ≡ pending) s.buf l e (ground arith)
buffered-IsAligned s l a h (inr e) =
    if_cases (λ p. All (λ (x : Log). x.block_number ≡ p) (s.buf ++ l ∷ []))
      (ltb s.pending_block l.block_number) l.block_number s.pending_block
      (λ lt. absurd (ground arith))
      (λ _. All-append (λ (x : Log). x.block_number ≡ s.pending_block) s.buf (l ∷ []) a (e, tt))

abbrev pub watcher_of : Next → Watcher
watcher_of (running s) = s.watcher
watcher_of (stopped w ok) = w

module _ (world : World) where
  flush-Aligned :
      (s : Live) (f : Live → Live)
      → ((w : Watcher) → IsAligned (f (record s { watcher = w; buf = [] })))
      → Aligned (flush world s f)
  unfolding flush
  flush-Aligned s f a =
      let r = process_batch world s.watcher s.buf s.pending_block true false in
      if_cases Aligned r.1 (running (f (record s { watcher = r.0; buf = [] }))) (stopped r.0 false)
        (λ _. a r.0) (λ _. tt)

  empty-IsAligned :
      (s : Live) (l : Log) (w : Watcher)
      → s.pending_block ≤ l.block_number
      → IsAligned (buffered (record s { watcher = w; buf = [] }) l)
  unfolding is_empty
  empty-IsAligned s l w h =
      buffered-IsAligned (record s { watcher = w; buf = [] }) l tt h (inl refl)

  arrive-Aligned :
      (s : Live) (removed : Bool) (l : Log) → IsAligned s → Aligned (arrive world s removed l)
  unfolding arrive
  arrive-Aligned s true l a = a
  arrive-Aligned s false l a =
      if_cases Aligned (ltb 0 s.pending_block && ltb l.block_number s.pending_block) (running s) _
        (λ _. a)
        (λ above.
          if_cases Aligned (not (is_empty s.buf) && ltb s.pending_block l.block_number)
            (flush world s (λ t. buffered t l)) (running (buffered s l))
            (λ later.
              flush-Aligned s (λ t. buffered t l) (λ w. empty-IsAligned s l w (ground arith)))
            (λ same. buffered-IsAligned s l a (ground arith) (ground arith)))

  on_tick-Aligned : (s : Live) → IsAligned s → Aligned (on_tick world s)
  unfolding on_tick
  on_tick-Aligned s a =
      if_cases Aligned s.grew (running (record s { grew = false })) _ (λ _. a)
        (λ _.
          if_cases Aligned (is_empty s.buf) (running s) (flush world s (λ t. t)) (λ _. a)
            (λ _. flush-Aligned s (λ t. t) (λ w. tt)))

  live_step-Aligned : (s : Live) (e : Event) → IsAligned s → Aligned (live_step world s e)
  unfolding live_step
  live_step-Aligned s (arrives removed l) a = arrive-Aligned s removed l a
  live_step-Aligned s tick a = on_tick-Aligned s a
  live_step-Aligned s cancelled a = tt
  live_step-Aligned s (closed failed) a = tt

  continue-Aligned : (n : Next) (e : Event) → Aligned n → Aligned (continue world n e)
  unfolding continue
  continue-Aligned (running s) e a = live_step-Aligned s e a
  continue-Aligned (stopped w ok) e a = tt

  -- What batches make of a watcher, each on logs of one block, the one that the cursor may move to.
  pub data Batches (start : Watcher) : Watcher → Type 0 where
    none_yet : Batches start start
    batch :
        {w : Watcher} (logs : List Log) (block : ℕ) (advance : Bool)
        → All (λ (l : Log). l.block_number ≡ block) logs
        → Batches start w
        → Batches start (process_batch world w logs block advance false).0

  flush-Batches :
      (start : Watcher) (s : Live) (f : Live → Live)
      → ((t : Live) → (f t).watcher ≡ t.watcher)
      → IsAligned s
      → Batches start s.watcher
      → Batches start (watcher_of (flush world s f))
  unfolding flush
  flush-Batches start s f k a b =
      let r = process_batch world s.watcher s.buf s.pending_block true false in
      let next = batch s.buf s.pending_block true a b in
      if_cases (λ n. Batches start (watcher_of n)) r.1 _ _
        (λ _. subst (Batches start) (sym (k (record s { watcher = r.0; buf = [] }))) next)
        (λ _. next)

  buffered-watcher : (s : Live) (l : Log) → (buffered s l).watcher ≡ s.watcher
  unfolding buffered
  buffered-watcher s l = refl

  arrive-Batches :
      (start : Watcher) (s : Live) (removed : Bool) (l : Log)
      → IsAligned s
      → Batches start s.watcher
      → Batches start (watcher_of (arrive world s removed l))
  unfolding arrive
  arrive-Batches start s true l a b = b
  arrive-Batches start s false l a b =
      let P : Next → Type 0 = λ n. Batches start (watcher_of n) in
      if_cases P (ltb 0 s.pending_block && ltb l.block_number s.pending_block) _ _ (λ _. b)
        (λ _.
          if_cases P (not (is_empty s.buf) && ltb s.pending_block l.block_number) _ _
            (λ _. flush-Batches start s (λ t. buffered t l) (λ t. buffered-watcher t l) a b)
            (λ _. subst (Batches start) (sym (buffered-watcher s l)) b))

  on_tick-Batches :
      (start : Watcher) (s : Live)
      → IsAligned s
      → Batches start s.watcher
      → Batches start (watcher_of (on_tick world s))
  unfolding on_tick
  on_tick-Batches start s a b =
      let P : Next → Type 0 = λ n. Batches start (watcher_of n) in
      if_cases P s.grew _ _ (λ _. b)
        (λ _.
          if_cases P (is_empty s.buf) _ _ (λ _. b)
            (λ _. flush-Batches start s (λ t. t) (λ t. refl) a b))

  continue-Batches :
      (start : Watcher) (n : Next) (e : Event)
      → Aligned n
      → Batches start (watcher_of n)
      → Batches start (watcher_of (continue world n e))
  unfolding continue live_step drain
  continue-Batches start (running s) (arrives removed l) a b = arrive-Batches start s removed l a b
  continue-Batches start (running s) tick a b = on_tick-Batches start s a b
  continue-Batches start (running s) cancelled a b = batch s.buf s.pending_block false a b
  continue-Batches start (running s) (closed failed) a b = batch s.buf s.pending_block false a b
  continue-Batches start (stopped w ok) e a b = b

  run-Batches :
      (start : Watcher) (es : List Event) (n : Next)
      → Aligned n
      → Batches start (watcher_of n)
      → Aligned (run_live world n es) × Batches start (watcher_of (run_live world n es))
  unfolding run_live
  run-Batches start [] n a b = (a, b)
  run-Batches start (e ∷ es) n a b =
      run-Batches start es (continue world n e) (continue-Aligned n e a)
        (continue-Batches start n e a b)

  -- If the buffer of a running loop holds logs of the pending block only, it still does after whatever
  -- events come, as long as the loop runs. All that the loop did to the watcher by then, to the end of the
  -- loop too, is a series of batches, each of logs of one block, and it is that block the cursor may move
  -- to.
  pub run_live-Aligned :
      (es : List Event) (s : Live)
      → IsAligned s
      → Aligned (run_live world (running s) es)
        × Batches s.watcher (watcher_of (run_live world (running s) es))
  run_live-Aligned es s a = run-Batches s.watcher es (running s) a none_yet

  flush-cursor :
      (s : Live) (f : Live → Live)
      → ((t : Live) → (f t).watcher ≡ t.watcher)
      → ((watcher_of (flush world s f)).cursor ≡ s.watcher.cursor)
        ⊎ ((watcher_of (flush world s f)).cursor ≡ some s.pending_block)
  unfolding flush
  flush-cursor s f k =
      let r = process_batch world s.watcher s.buf s.pending_block true false in
      if_cases
        (λ n.
          ((watcher_of n).cursor ≡ s.watcher.cursor)
          ⊎ ((watcher_of n).cursor ≡ some s.pending_block))
        r.1 (running (f (record s { watcher = r.0; buf = [] }))) (stopped r.0 false)
        (λ ok. inr (
          ap (λ (w : Watcher). w.cursor) (k (record s { watcher = r.0; buf = [] }))
          ∙ (process_batch-done world s.watcher s.buf s.pending_block false ok).0))
        (λ failed.
          inl (process_batch-failed world s.watcher s.buf s.pending_block true false failed).0)

  -- When the loop may move the cursor to the pending block: its logs are there, and a log of a later
  -- block arrives, or a tick with no arrival since the last one.
  abbrev pub Complete : Live → Event → Type 0
  Complete s (arrives removed l) =
      (is_empty s.buf ≡ false) × (removed ≡ false) × (s.pending_block < l.block_number)
  Complete s tick = (is_empty s.buf ≡ false) × (s.grew ≡ false)
  Complete s cancelled = ⊥
  Complete s (closed failed) = ⊥

  abbrev pub Moved : Live → Event → Next → Type 0
  Moved s e n =
      ((watcher_of n).cursor ≡ s.watcher.cursor)
      ⊎ (((watcher_of n).cursor ≡ some s.pending_block) × Complete s e)

  -- A step of the live loop leaves the cursor, or moves it to the pending block, whose logs were
  -- buffered: when a log of a later block arrives, or at a tick with no arrival since the last one.
  pub live_step-cursor : (s : Live) (e : Event) → Moved s e (live_step world s e)
  unfolding live_step arrive on_tick drain
  live_step-cursor s (arrives removed l) =
      ground (
        arith,
        flush-cursor s (λ t. buffered t l) (λ t. buffered-watcher t l),
        buffered-watcher s l,
      )
  live_step-cursor s tick = ground (arith, flush-cursor s (λ t. t) (λ t. refl))
  live_step-cursor s cancelled =
      inl (process_batch-parked world s.watcher s.buf s.pending_block false)
  live_step-cursor s (closed failed) =
      inl (process_batch-parked world s.watcher s.buf s.pending_block false)
