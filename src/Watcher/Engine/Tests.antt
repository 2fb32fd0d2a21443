-- ===== src/Watcher/Engine/Tests.antt =====
-- A batch with one watched trade.
use lobster_roll.Prelude.{ℕ, ◌≡◌, refl, List, [], ◌∷◌, ◌++◌, bytes_beq, has, take, lookup}
use lobster_roll.Watcher.Decode.{
  Eth, Log, decode, dispatch, decode_order_filled, decode_current, from_words, word, set_bytes,
  is_side, order_filled_topic,
}
use lobster_roll.Watcher.Address.{watched}
use lobster_roll.Watcher.Seen.{seen_has, present}
use lobster_roll.Watcher.Engine.{
  key_of, process_batch, process_all, process_log, process_decoded, relevant, add_sides,
  append_fill, mark_all,
}
use lobster_roll.Watcher.Engine.Once.{process_batch-again}

abbrev pub eth : Eth
eth = record { hash_hex = λ h. h; bytes_to_address = λ b. b; address_hex = λ a. a }

abbrev zeros : ℕ → List ℕ
zeros n = take n (
    0 ∷ 0 ∷ 0 ∷ 0 ∷ 0 ∷ 0 ∷ 0 ∷ 0 ∷ 0 ∷ 0 ∷ 0 ∷ 0 ∷ 0 ∷ 0 ∷ 0 ∷ 0 ∷ 0 ∷ 0 ∷ 0 ∷ 0 ∷ 0 ∷ 0 ∷ 0 ∷ 0
    ∷ 0 ∷ 0 ∷ 0 ∷ 0 ∷ 0 ∷ 0 ∷ 0 ∷ 0 ∷ [])

abbrev byte_word : ℕ → List ℕ
byte_word b = zeros 31 ++ b ∷ []

-- A buy of 10 units for 5 by address 2 from address 3.
abbrev pub trade_log : Log
trade_log = record {
  topics = order_filled_topic ∷ (1 ∷ []) ∷ (2 ∷ []) ∷ (3 ∷ []) ∷ [];
  content =
      byte_word 0
      ++ byte_word 7
      ++ byte_word 5
      ++ byte_word 10
      ++ byte_word 0
      ++ byte_word 0
      ++ byte_word 0;
  tx_hash = 9 ∷ [];
  index = 4;
  block_number = 100;
}

consumed_run :
    (process_batch eth ((2 ∷ []) ∷ []) [] (trade_log ∷ [])).1
    ≡ record { key = key_of trade_log; block = 100 } ∷ []
unfolding process_batch process_all process_log process_decoded relevant watched seen_has present
    decode dispatch decode_order_filled decode_current from_words word set_bytes is_side bytes_beq
    lookup order_filled_topic append_fill add_sides has
consumed_run = refl

process_batch-again_example :
    let after = mark_all [] (process_batch eth ((2 ∷ []) ∷ []) [] (trade_log ∷ [])).1 in
    ((process_batch eth ((2 ∷ []) ∷ []) after (trade_log ∷ [])).0 ≡ [])
    × ((process_batch eth ((2 ∷ []) ∷ []) after (trade_log ∷ [])).1 ≡ [])
process_batch-again_example = process_batch-again eth ((2 ∷ []) ∷ []) [] (trade_log ∷ [])
