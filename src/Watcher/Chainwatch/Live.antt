-- ===== src/Watcher/Chainwatch/Live.antt =====
-- The live loop of chainwatch.go, as a step for each event of its select.
pub mod Blocks
use lobster_roll.Prelude.{
  ℕ, ◌≡◌, Bool, true, false, not, List, [], ◌∷◌, ◌++◌, ltb, if◌then◌else◌, ◌&&◌,
}
use lobster_roll.Watcher.Decode.{Log}
use lobster_roll.Watcher.Chainwatch.{World, Watcher, process_batch}

-- `arrives removed l` is a log, with `Removed`; `closed e` is the end of the subscription, with
-- whether it had an error.
pub data Event : Type 0 where
  arrives : Bool → Log → Event
  tick cancelled : Event
  closed : Bool → Event

pub record Live : Type 0 where
  pub watcher : Watcher
  pub buf : List Log
  pub pending_block : ℕ
  pub grew : Bool

pub data Next : Type 0 where
  running : Live → Next
  stopped : Watcher → Bool → Next

pub is_empty : List Log → Bool
is_empty [] = true
is_empty (l ∷ ls) = false

-- The log joins the buffer.
pub buffered : Live → Log → Live
buffered s l = record s {
  buf = s.buf ++ l ∷ [];
  pending_block = if ltb s.pending_block l.block_number then l.block_number else s.pending_block;
  grew = true;
}

module _ (world : World) where
  -- The block is complete: the buffer goes out, and the cursor moves.
  pub flush : Live → (Live → Live) → Next
  flush s f =
      let (w, ok) = process_batch world s.watcher s.buf s.pending_block true false in
      if ok then running (f (record s { watcher = w; buf = [] })) else stopped w false

  pub arrive : Live → Bool → Log → Next
  unfolding flush buffered is_empty
  arrive s removed l =
      if removed
      then running s
      else if ltb 0 s.pending_block && ltb l.block_number s.pending_block
      then running s
      else if not (is_empty s.buf) && ltb s.pending_block l.block_number
      then flush s (λ t. buffered t l)
      else running (buffered s l)

  pub on_tick : Live → Next
  unfolding flush is_empty
  on_tick s =
      if s.grew
      then running (record s { grew = false })
      else if is_empty s.buf
      then running s
      else flush s (λ t. t)

  -- What is there goes out, and the cursor stays.
  pub drain : Live → Watcher
  drain s = (process_batch world s.watcher s.buf s.pending_block false false).0

  pub live_step : Live → Event → Next
  unfolding arrive on_tick drain
  live_step s (arrives removed l) = arrive s removed l
  live_step s tick = on_tick s
  live_step s cancelled = stopped (drain s) true
  live_step s (closed failed) = stopped (drain s) (not failed)

  pub continue : Next → Event → Next
  unfolding live_step
  continue (running s) e = live_step s e
  continue (stopped w ok) e = stopped w ok

  pub run_live : Next → List Event → Next
  unfolding continue
  run_live n [] = n
  run_live n (e ∷ es) = run_live (continue n e) es
