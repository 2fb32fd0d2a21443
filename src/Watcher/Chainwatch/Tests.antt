-- ===== src/Watcher/Chainwatch/Tests.antt =====
-- A batch with one trade, published and refused; a backfill of two chunks; a live loop of three events.
use lobster_roll.Prelude.{
  List, ◌≡◌, ◌⊎◌, ◌++◌, refl, Bool, true, false, [], ◌∷◌, some, bytes_beq, lookup, has, sort_by,
  insert_by, arith,
}
use lobster_roll.Watcher.Decode.{
  decode, dispatch, decode_order_filled, decode_current, from_words, word, set_bytes, is_side,
  order_filled_topic,
}
use lobster_roll.Watcher.Fills.{fill_for, aggregate_by_tx, group_fills, join}
use lobster_roll.Watcher.Address.{watched}
use lobster_roll.Watcher.Seen.{seen_has, present}
use lobster_roll.Watcher.Engine.{
  process_batch as process_logs, process_all, process_log, process_decoded, relevant, add_sides,
  append_fill,
}
use lobster_roll.Watcher.Engine.Tests.{eth, trade_log}
use lobster_roll.Watcher.Chainwatch.{
  World, Watcher, emit, emit_all, advance, finish, process_batch, backfill, start_block,
}
use lobster_roll.Watcher.Chainwatch.Publish.{detect_all, process_batch-done, process_batch-failed}
use lobster_roll.Watcher.Chainwatch.Ranges.{Ends, backfill-Ends}
use lobster_roll.Watcher.Chainwatch.Cycle.{Answers, before_live}
use lobster_roll.Watcher.Chainwatch.Cycle.Gapless.{Scanned, before_live-Scanned}
use lobster_roll.Watcher.Chainwatch.Live.{
  Event, arrives, tick, cancelled, Live, running, live_step, run_live,
}
use lobster_roll.Watcher.Chainwatch.Live.Blocks.{
  Aligned, Batches, watcher_of, Moved, run_live-Aligned, live_step-cursor,
}

abbrev working : World
working = record {
  eth = eth;
  set = (2 ∷ []) ∷ [];
  accepts = λ n. true;
  stores = λ n. true;
  clock = λ n. 1000;
  filter_logs = λ n a b. some [];
  chunk = 2000;
}

abbrev refusing : World
refusing = record working { accepts = λ n. false }

abbrev fresh : Watcher
fresh = record {
  seen = [];
  cursor = some 99;
  sent = [];
  publications = 0;
  writes = 0;
  queries = [];
}

accepted_run : (process_batch working fresh (trade_log ∷ []) 100 true false).1 ≡ true
unfolding process_batch emit_all emit finish advance process_logs process_all process_log
    process_decoded relevant watched seen_has present decode dispatch decode_order_filled
    decode_current from_words word set_bytes is_side bytes_beq lookup has order_filled_topic
    append_fill add_sides fill_for aggregate_by_tx group_fills join sort_by insert_by
accepted_run = refl

refused_run : (process_batch refusing fresh (trade_log ∷ []) 100 true false).1 ≡ false
unfolding process_batch emit_all emit finish advance process_logs process_all process_log
    process_decoded relevant watched seen_has present decode dispatch decode_order_filled
    decode_current from_words word set_bytes is_side bytes_beq lookup has order_filled_topic
    append_fill add_sides fill_for aggregate_by_tx group_fills join sort_by insert_by
refused_run = refl

process_batch-done_example :
    let v = (process_batch working fresh (trade_log ∷ []) 100 true false).0 in
    (v.cursor ≡ some 100)
    × (v.sent
        ≡ [] ++ detect_all working 0 false (process_logs eth ((2 ∷ []) ∷ []) [] (trade_log ∷ [])).0)
process_batch-done_example =
    process_batch-done working fresh (trade_log ∷ []) 100 false accepted_run

process_batch-failed_example :
    let v = (process_batch refusing fresh (trade_log ∷ []) 100 true false).0 in
    (v.cursor ≡ some 99) × ((v.seen ≡ []) ⊎ (true ≡ false))
process_batch-failed_example =
    process_batch-failed refusing fresh (trade_log ∷ []) 100 true false refused_run

backfill-Ends_example :
    (r : Watcher × Bool) × (backfill working 3002 fresh 100 3100 true ≡ some r)
    × Ends working fresh 100 3100 r
backfill-Ends_example =
    backfill-Ends working 3001 fresh 100 3100 true (omega arith) (omega arith) (omega arith)

abbrev idle : Live
idle = record { watcher = fresh; buf = []; pending_block = 0; grew = false }

abbrev events : List Event
events = arrives false trade_log ∷ tick ∷ arrives true trade_log ∷ cancelled ∷ []

run_live-Aligned_example :
    Aligned (run_live working (running idle) events)
    × Batches working idle.watcher (watcher_of (run_live working (running idle) events))
run_live-Aligned_example = run_live-Aligned working events idle tt

abbrev waiting : Live
waiting = record { watcher = fresh; buf = trade_log ∷ []; pending_block = 100; grew = false }

live_step-cursor_example : Moved working waiting tick (live_step working waiting tick)
live_step-cursor_example = live_step-cursor working waiting tick

abbrev answers : Answers
answers = record { head = some 3100; cursor_read = true; subscribed = true; new_head = some 3105 }

-- The cursor stands at 99.
before_live-Scanned_example :
    (r : Watcher × Bool) × (before_live working 3010 fresh answers ≡ some r)
    × Scanned working fresh (start_block working fresh 3100) 3105 r
unfolding start_block
before_live-Scanned_example =
    before_live-Scanned working 3009 fresh answers 3100 3105 (omega arith) refl refl refl refl
      (omega arith) (omega arith) (omega arith) (omega arith)
