-- ===== src/Watcher/Engine/Once.antt =====
-- A log is consumed once: after the consumed logs are marked, the same logs give nothing.
use lobster_roll.Prelude.{
  ℕ, ◌≡◌, ◌⊎◌, refl, ◌∙◌, Bool, true, false, not, List, [], ◌∷◌, ◌++◌, ◌≟◌, ltb, if◌then◌else◌, All,
  ◌||◌, ◌&&◌, arith, beq_refl, ap,
}
use lobster_roll.Watcher.Decode.{Eth, Log, OrderFilled, Result, ok, err, decode}
use lobster_roll.Watcher.Fills.{aggregate_by_tx}
use lobster_roll.Watcher.Fills.Groups.{aggregate_by_tx-nil}
use lobster_roll.Watcher.Address.{watched}
use lobster_roll.Watcher.Seen.{Key, key_eq, Seen, seen_has, mark}
use lobster_roll.Watcher.Seen.Marks.{mark-seen_has}
use lobster_roll.Watcher.Engine.{
  Consumed, Batch, key_of, relevant, process_decoded, process_log, process_all, process_batch,
  mark_all,
}

pub consumes : Key → List Consumed → Bool
consumes k [] = false
consumes k (c ∷ cs) = if c.key ≟ k then true else consumes k cs

pub seen_has-mark_all :
    (k : Key) (cs : List Consumed) (s : Seen)
    → seen_has (mark_all s cs) k ≡ (if seen_has s k then true else consumes k cs)
unfolding mark_all consumes
seen_has-mark_all k [] s = ground arith
seen_has-mark_all k (c ∷ cs) s =
    ground (arith, seen_has-mark_all k cs (mark s c.key c.block).0, mark-seen_has s c.key k c.block)

consumes-append :
    (k : Key) (cs ds : List Consumed)
    → consumes k (cs ++ ds) ≡ (if consumes k cs then true else consumes k ds)
unfolding consumes
consumes-append k [] ds = refl
consumes-append k (c ∷ cs) ds = ground (arith, consumes-append k cs ds)

module _ (set : List (List ℕ)) where
  -- Whether a log is of a watched wallet and decodes.
  pub wanted : Result OrderFilled → Bool
  wanted (err e) = false
  wanted (ok o) = watched set o.maker || watched set o.taker

-- A log that gives nothing: unwanted, or in the set.
abbrev pub Settled : Eth → List (List ℕ) → Seen → Log → Type 0
Settled eth set s l = (wanted set (decode eth l) ≡ false) ⊎ (seen_has s (key_of l) ≡ true)

module _ (eth : Eth) (set : List (List ℕ)) (seen : Seen) where
  consumes-process_decoded :
      (k : Key) (l : Log) (b : Batch) (r : Result OrderFilled)
      → consumes k (process_decoded eth set seen l b r).consumed ≡ (
          if consumes k b.consumed
          then true
          else (wanted set r && not (seen_has seen (key_of l)) && (key_of l ≟ k)))
  unfolding process_decoded relevant wanted consumes
  consumes-process_decoded k l b (err e) = ground arith
  consumes-process_decoded k l b (ok o) =
      ground (
        arith,
        consumes-append k b.consumed (record { key = key_of l; block = l.block_number } ∷ []),
      )

  process_decoded-Settled :
      (l : Log) (b : Batch) (r : Result OrderFilled)
      → (wanted set r ≡ false) ⊎ (seen_has seen (key_of l) ≡ true)
      → process_decoded eth set seen l b r ≡ b
  unfolding process_decoded relevant wanted
  process_decoded-Settled l b (err e) h = refl
  process_decoded-Settled l b (ok o) h = ground arith

  consumes-process_log :
      (k : Key) (l : Log) (b : Batch)
      → consumes k (process_log eth set seen l b).consumed ≡ (
          if consumes k b.consumed
          then true
          else (wanted set (decode eth l) && not (seen_has seen (key_of l)) && (key_of l ≟ k)))
  unfolding process_log
  consumes-process_log k l b = consumes-process_decoded k l _ (decode eth l)

  consumes-process_all :
      (k : Key) (ls : List Log) (b : Batch)
      → consumes k b.consumed ≡ true
      → consumes k (process_all eth set seen ls b).consumed ≡ true
  unfolding process_all
  consumes-process_all k [] b h = h
  consumes-process_all k (l ∷ ls) b h =
      consumes-process_all k ls (process_log eth set seen l b)
        (ground (arith, consumes-process_log k l b))

  All-Settled :
      (ls : List Log) (b : Batch)
      → All (Settled eth set (mark_all seen (process_all eth set seen ls b).consumed)) ls
  unfolding process_all
  All-Settled [] b = tt
  All-Settled (l ∷ ls) b =
      let k = key_of l in
      let rest = process_all eth set seen ls (process_log eth set seen l b) in
      (
        ground (
          arith,
          seen_has-mark_all k rest.consumed seen,
          consumes-process_all k ls (process_log eth set seen l b),
          consumes-process_log k l b,
          beq_refl k,
        ),
        All-Settled ls (process_log eth set seen l b),
      )

module _ (eth : Eth) (set : List (List ℕ)) where
  process_all-Settled :
      (s : Seen) (ls : List Log) (b : Batch)
      → All (Settled eth set s) ls
      → ((process_all eth set s ls b).fills ≡ b.fills)
        × ((process_all eth set s ls b).consumed ≡ b.consumed)
  unfolding process_all process_log
  process_all-Settled s [] b a = (refl, refl)
  process_all-Settled s (l ∷ ls) b (h, a) =
      let c : Batch = record b {
        max_block = if ltb b.max_block l.block_number then l.block_number else b.max_block;
      } in
      let e : process_log eth set s l b ≡ c =
        process_decoded-Settled eth set s l c (decode eth l) h in
      let (f, g) = process_all-Settled s ls (process_log eth set s l b) a in
      (f ∙ ap (λ (x : Batch). x.fills) e, g ∙ ap (λ (x : Batch). x.consumed) e)

  -- Once the logs that a batch consumed are marked as seen, the same batch gives no trade and
  -- consumes no log: no trade is published twice.
  pub process_batch-again :
      (s : Seen) (logs : List Log)
      → let after = mark_all s (process_batch eth set s logs).1 in
        ((process_batch eth set after logs).0 ≡ []) × ((process_batch eth set after logs).1 ≡ [])
  unfolding process_batch
  process_batch-again s logs =
      let start : Batch = record { fills = []; consumed = []; max_block = 0 } in
      let after = mark_all s (process_all eth set s logs start).consumed in
      let (f, c) = process_all-Settled after logs start (All-Settled eth set s logs start) in
      (ap aggregate_by_tx f ∙ aggregate_by_tx-nil, c)

  pub process_batch-nil : (s : Seen) → (process_batch eth set s []).0 ≡ []
  unfolding process_batch process_all
  process_batch-nil s = aggregate_by_tx-nil
