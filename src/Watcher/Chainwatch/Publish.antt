-- ===== src/Watcher/Chainwatch/Publish.antt =====
-- A batch is published as a whole before anything is marked or the cursor moves.
use mathlib.Core.List.{append-nil, append_assoc}
use lobster_roll.Prelude.{
  ℕ, suc, ◌≡◌, ◌⊎◌, inr, refl, ◌∙◌, ap, sym, Bool, true, false, List, [], ◌∷◌, ◌++◌, some, arith,
}
use lobster_roll.Bus.{TradeDetected}
use lobster_roll.Watcher.Decode.{Log}
use lobster_roll.Watcher.Fills.{Trade}
use lobster_roll.Watcher.Engine.{process_batch as process_logs, mark_all}
use lobster_roll.Watcher.Engine.Once.{process_batch-nil}
use lobster_roll.Watcher.Chainwatch.{
  World, Watcher, detected, emit, emit_all, advance, finish, process_batch,
}

module _ (world : World) where
  -- The messages of the trades, the first one with the n-th reading of the clock.
  pub detect_all : ℕ → Bool → List Trade → List TradeDetected
  unfolding detected
  detect_all n backfilled [] = []
  detect_all n backfilled (tr ∷ trs) =
      detected world n backfilled tr ∷ detect_all (suc n) backfilled trs

  emit_all-kept :
      (w : Watcher) (trs : List Trade) (b : Bool)
      → let v = (emit_all world w trs b).0 in
        (v.seen ≡ w.seen) × (v.cursor ≡ w.cursor) × (v.writes ≡ w.writes)
  unfolding emit_all emit
  emit_all-kept w [] b = (refl, refl, refl)
  emit_all-kept w (tr ∷ trs) b = ground (arith, emit_all-kept (emit world w tr b).0 trs b)

  emit_all-nil : (w : Watcher) (b : Bool) → (emit_all world w [] b).0.sent ≡ w.sent ++ []
  unfolding emit_all
  emit_all-nil w b = sym (append-nil w.sent)

  emit-accepted :
      (w : Watcher) (tr : Trade) (b : Bool)
      → (emit world w tr b).1 ≡ true
      → ((emit world w tr b).0.sent ≡ w.sent ++ detected world w.publications b tr ∷ [])
        × ((emit world w tr b).0.publications ≡ suc w.publications)
  unfolding emit
  emit-accepted w tr b h = ground arith

  emit_all-cons :
      (w : Watcher) (tr : Trade) (trs : List Trade) (b : Bool)
      → (emit_all world w (tr ∷ trs) b).1 ≡ true
      → ((emit world w tr b).1 ≡ true)
        × (emit_all world w (tr ∷ trs) b ≡ emit_all world (emit world w tr b).0 trs b)
  unfolding emit_all
  emit_all-cons w tr trs b h = ground arith

  emit_all-sent :
      (w : Watcher) (trs : List Trade) (b : Bool)
      → (emit_all world w trs b).1 ≡ true
      → (emit_all world w trs b).0.sent ≡ w.sent ++ detect_all w.publications b trs
  unfolding detect_all
  emit_all-sent w [] b h = emit_all-nil w b
  emit_all-sent w (tr ∷ trs) b h =
      let (ok, e) = emit_all-cons w tr trs b h in
      let (sent, next) = emit-accepted w tr b ok in
      let v = (emit world w tr b).0 in
      ap (λ r. r.0.sent) e
      ∙ emit_all-sent v trs b (ap (λ r. r.1) (sym e) ∙ h)
      ∙ ap (λ x. x ++ detect_all v.publications b trs) sent
      ∙ ap (λ n. (w.sent ++ detected world w.publications b tr ∷ []) ++ detect_all n b trs) next
      ∙ append_assoc w.sent (detected world w.publications b tr ∷ [])
          (detect_all (suc w.publications) b trs)

  finish-done :
      (w : Watcher) (block : ℕ)
      → (finish world w block true).1 ≡ true
      → ((finish world w block true).0.cursor ≡ some block)
        × ((finish world w block true).0.sent ≡ w.sent)
  unfolding finish advance
  finish-done w block h = ground arith

  finish-failed :
      (w : Watcher) (block : ℕ) (adv : Bool)
      → (finish world w block adv).1 ≡ false
      → ((finish world w block adv).0.cursor ≡ w.cursor) × (world.stores w.writes ≡ false)
  unfolding finish advance
  finish-failed w block adv h = ground arith

  -- A batch that ends in an error leaves the cursor where it was, and marks no log unless it is the
  -- write of the cursor that failed.
  pub process_batch-failed :
      (w : Watcher) (logs : List Log) (block : ℕ) (adv backfilled : Bool)
      → (process_batch world w logs block adv backfilled).1 ≡ false
      → let v = (process_batch world w logs block adv backfilled).0 in
        (v.cursor ≡ w.cursor) × ((v.seen ≡ w.seen) ⊎ (world.stores w.writes ≡ false))
  unfolding process_batch
  process_batch-failed w [] block adv backfilled h =
      let (c, s) = finish-failed w block adv h in (c, inr s)
  process_batch-failed w (l ∷ ls) block adv backfilled h =
      let r = process_logs world.eth world.set w.seen (l ∷ ls) in
      let v = (emit_all world w r.0 backfilled).0 in
      ground (
        arith,
        emit_all-kept w r.0 backfilled,
        finish-failed (record v { seen = mark_all v.seen r.1 }) block adv,
      )

  -- A batch that ends without an error and advances has published exactly its trades, in their
  -- order, after what was published before, and the cursor stands at its block.
  pub process_batch-done :
      (w : Watcher) (logs : List Log) (block : ℕ) (backfilled : Bool)
      → (process_batch world w logs block true backfilled).1 ≡ true
      → let v = (process_batch world w logs block true backfilled).0 in
        (v.cursor ≡ some block)
        × (v.sent
            ≡ w.sent
              ++ detect_all w.publications backfilled
                  (process_logs world.eth world.set w.seen logs).0)
  unfolding process_batch detect_all
  process_batch-done w [] block backfilled h =
      let (c, s) = finish-done w block h in
      (c, rw (process_batch-nil world.eth world.set w.seen) (s ∙ sym (append-nil w.sent)))
  process_batch-done w (l ∷ ls) block backfilled h =
      let r = process_logs world.eth world.set w.seen (l ∷ ls) in
      let v = (emit_all world w r.0 backfilled).0 in
      ground (
        arith,
        emit_all-sent w r.0 backfilled,
        finish-done (record v { seen = mark_all v.seen r.1 }) block,
      )

  -- Without the advance the cursor stays, whatever happens.
  pub process_batch-parked :
      (w : Watcher) (logs : List Log) (block : ℕ) (backfilled : Bool)
      → (process_batch world w logs block false backfilled).0.cursor ≡ w.cursor
  unfolding process_batch finish
  process_batch-parked w [] block backfilled = refl
  process_batch-parked w (l ∷ ls) block backfilled =
      let r = process_logs world.eth world.set w.seen (l ∷ ls) in
      ground (arith, emit_all-kept w r.0 backfilled)
