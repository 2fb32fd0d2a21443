-- ===== src/Watcher/Chainwatch.antt =====
-- services/watcher/internal/chainwatch: publishing a batch, the cursor, and the backfill. Whether the
-- n-th publication or write of the cursor succeeds, what the n-th reading of the clock gives and
-- what the chain's client answers are parameters.
pub mod Live
pub mod Cycle
pub mod Publish
pub mod Ranges
mod Tests
use lobster_roll.Prelude.{
  ℕ, zero, suc, ◌+◌, ◌-◌, ◌%◌, ◌^◌, ◌≡◌, Bool, true, false, not, List, [], ◌∷◌, ◌++◌, Option, none,
  some, ltb, length, if◌then◌else◌,
}
use lobster_roll.Bus.{TradeDetected}
use lobster_roll.Watcher.Decode.{Eth, Log}
use lobster_roll.Watcher.Fills.{Trade}
use lobster_roll.Watcher.Seen.{Seen, prune_below}
use lobster_roll.Watcher.Engine.{process_batch as process_logs, mark_all, Consumed}

abbrev pub default_chunk : ℕ
default_chunk = 2000

abbrev pub reorg_depth : ℕ
reorg_depth = 128

-- What the watcher calls, and its fixed settings.
pub record World : Type 0 where
  pub eth : Eth
  pub set : List (List ℕ)
  pub accepts : ℕ → Bool
  pub stores : ℕ → Bool
  pub clock : ℕ → ℕ
  pub filter_logs : ℕ → ℕ → ℕ → Option (List Log)
  pub chunk : ℕ

-- The state: the set, the cursor, what was published, and the calls made so far.
pub record Watcher : Type 0 where
  pub seen : Seen
  pub cursor : Option ℕ
  pub sent : List TradeDetected
  pub publications : ℕ
  pub writes : ℕ
  pub queries : List (ℕ × ℕ)

module _ (world : World) where
  open world use {eth, set, accepts, stores, clock, filter_logs, chunk}

  pub detected : ℕ → Bool → Trade → TradeDetected
  detected n backfilled tr = record {
    wallet = tr.wallet;
    token_id = tr.token_id;
    side = tr.side;
    price = tr.price;
    size = tr.size;
    tx_hash = tr.tx_hash;
    log_index = tr.log_index;
    block_number = tr.block_number;
    observed_at = clock n;
    backfilled = backfilled;
  }

  -- Each operation gives the new state, and false for an error.
  pub emit : Watcher → Trade → Bool → Watcher × Bool
  unfolding detected
  emit w tr backfilled =
      let n = w.publications in
      if accepts n
      then (record w { sent = w.sent ++ detected n backfilled tr ∷ []; publications = suc n }, true)
      else (record w { publications = suc n }, false)

  pub emit_all : Watcher → List Trade → Bool → Watcher × Bool
  unfolding emit
  emit_all w [] backfilled = (w, true)
  emit_all w (tr ∷ trs) backfilled =
      let (v, ok) = emit w tr backfilled in
      let rest = emit_all v trs backfilled in if ok then rest else (v, false)

  pub advance : Watcher → ℕ → Watcher × Bool
  advance w block =
      let v = record w { writes = suc w.writes } in
      if stores w.writes
      then (
        record v {
          cursor = some block;
          seen = if ltb reorg_depth block then prune_below w.seen (block - reorg_depth) else w.seen;
        },
        true,
      )
      else (v, false)

  pub finish : Watcher → ℕ → Bool → Watcher × Bool
  unfolding advance
  finish w advance_block do_advance = if do_advance then advance w advance_block else (w, true)

  pub process_batch : Watcher → List Log → ℕ → Bool → Bool → Watcher × Bool
  unfolding finish emit_all
  process_batch w [] advance_block do_advance backfilled = finish w advance_block do_advance
  process_batch w (l ∷ ls) advance_block do_advance backfilled =
      let (trades, consumed, max_block) = process_logs eth set w.seen (l ∷ ls) in
      let (v, ok) = emit_all w trades backfilled in
      if ok
      then finish (record v { seen = mark_all v.seen consumed }) advance_block do_advance
      else (v, false)

  pub start_block : Watcher → ℕ → ℕ
  start_block w head = elim w.cursor [ none ↦ head | some last ↦ (last + 1) % 2 ^ 64 ]

  -- The last block of a chunk.
  pub chunk_end : ℕ → ℕ → ℕ
  chunk_end start to =
      let last = (start + chunk + (2 ^ 64 - 1)) % 2 ^ 64 in if ltb to last then to else last

  pub scan_chunk : Watcher → ℕ → ℕ → Bool → Option (List Log) → Watcher × Bool
  unfolding process_batch
  scan_chunk w start last backfilled none = (w, false)
  scan_chunk w start last backfilled (some logs) = process_batch w logs last true backfilled

  -- One query: its number is that of the queries before it.
  pub query : Watcher → ℕ → ℕ → Bool → Watcher × Bool
  unfolding scan_chunk
  query w start last backfilled =
      scan_chunk (record w { queries = w.queries ++ (start, last) ∷ [] }) start last backfilled
        (filter_logs (length w.queries) start last)

  -- none: out of fuel.
  pub backfill : ℕ → Watcher → ℕ → ℕ → Bool → Option (Watcher × Bool)
  unfolding query chunk_end
  backfill zero w start to backfilled = none
  backfill (suc fuel) w start to backfilled =
      let (v, ok) = query w start (chunk_end start to) backfilled in
      let rest = backfill fuel v ((start + chunk) % 2 ^ 64) to backfilled in
      if ltb to start then some (w, true) else if ok then rest else some (v, false)
