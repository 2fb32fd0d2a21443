-- ===== src/Watcher/Engine.antt =====
-- services/watcher/internal/engine: a batch of logs becomes trades and the logs they come from. The
-- batch reads the set of seen logs and does not change it.
pub mod Once
pub mod Tests
use lobster_roll.Prelude.{
  ℕ, ◌≡◌, Bool, true, false, not, List, [], ◌∷◌, ◌++◌, Option, none, some, ltb, if◌then◌else◌, ◌&&◌,
  ◌||◌,
}
use lobster_roll.Watcher.Decode.{Eth, Log, OrderFilled, Result, ok, err, decode}
use lobster_roll.Watcher.Fills.{Fill, Trade, fill_for, aggregate_by_tx}
use lobster_roll.Watcher.Address.{watched}
use lobster_roll.Watcher.Seen.{Key, Seen, seen_has, mark}

pub record Consumed : Type 0 where
  pub key : Key
  pub block : ℕ

-- What the loop has gathered.
pub record Batch : Type 0 where
  pub fills : List Fill
  pub consumed : List Consumed
  pub max_block : ℕ

abbrev pub key_of : Log → Key
key_of l = record { tx = l.tx_hash; idx = l.index }

unfoldable pub append_fill : List Fill → Option Fill → List Fill
append_fill fills none = fills
append_fill fills (some f) = fills ++ f ∷ []

module _ (eth : Eth) (set : List (List ℕ)) (seen : Seen) where
  -- The fills of the watched sides, the maker's first.
  unfoldable pub add_sides : List Fill → OrderFilled → List Fill
  unfolding append_fill
  add_sides fills o =
      let made =
        if watched set o.maker then append_fill fills (fill_for eth o o.maker) else fills in
      if watched set o.taker then append_fill made (fill_for eth o o.taker) else made

  unfoldable pub relevant : Log → OrderFilled → Bool
  relevant l o = (watched set o.maker || watched set o.taker) && not (seen_has seen (key_of l))

  unfoldable pub process_decoded : Log → Batch → Result OrderFilled → Batch
  unfolding add_sides relevant
  process_decoded l b (err e) = b
  process_decoded l b (ok o) =
      if relevant l o
      then record b {
        fills = add_sides b.fills o;
        consumed = b.consumed ++ record { key = key_of l; block = l.block_number } ∷ [];
      }
      else b

  unfoldable pub process_log : Log → Batch → Batch
  unfolding process_decoded
  process_log l b =
      process_decoded l
        (record b {
          max_block = if ltb b.max_block l.block_number then l.block_number else b.max_block;
        })
        (decode eth l)

  unfoldable pub process_all : List Log → Batch → Batch
  unfolding process_log
  process_all [] b = b
  process_all (l ∷ ls) b = process_all ls (process_log l b)

  -- `ProcessBatch`.
  unfoldable pub process_batch : List Log → List Trade × List Consumed × ℕ
  unfolding process_all
  process_batch logs =
      let b = process_all logs (record { fills = []; consumed = []; max_block = 0 }) in
      (aggregate_by_tx b.fills, b.consumed, b.max_block)

-- The caller's loop over the consumed logs.
unfoldable pub mark_all : Seen → List Consumed → Seen
mark_all s [] = s
mark_all s (c ∷ cs) = mark_all (mark s c.key c.block).0 cs
