-- ===== src/Watcher/Decode/Tests.antt =====
-- Runs of the decoders on an event in both ABIs.
use lobster_roll.Prelude.{◌≡◌, refl, [], ◌∷◌, arith}
use lobster_roll.Watcher.Decode.{
  Eth, ok, err, no_topics, decode, dispatch, order_filled_topic, order_filled_topic_legacy,
}
use lobster_roll.Watcher.Decode.RoundTrip.{
  Event, encode_words, words, legacy_words, log_of, meaning, decode-current, decode-legacy,
}

-- A hash stands for its own text, and an address is the last bytes of its word.
abbrev eth : Eth
eth = record { hash_hex = λ h. h; bytes_to_address = λ b. b; address_hex = λ a. a }

abbrev event : Event
event = record {
  order = 1 ∷ [];
  maker = 2 ∷ [];
  taker = 3 ∷ [];
  side = 1;
  token = 7;
  maker_amount = 5_000_000;
  taker_amount = 2_500_000;
  fee = 10;
  builder = 0;
  metadata = 0;
}

decode-current_example :
    decode eth (log_of eth event order_filled_topic (9 ∷ []) 4 100 (encode_words (words event)))
    ≡ ok (meaning eth event order_filled_topic (9 ∷ []) 4 100)
decode-current_example =
    decode-current eth event order_filled_topic (9 ∷ []) 4 100 refl
      (
        omega arith,
        (
          omega arith,
          (omega arith, (omega arith, (omega arith, (omega arith, (omega arith, tt))))),
        ),
      )
      (omega arith)

decode-legacy_run :
    decode eth (
      log_of eth event order_filled_topic_legacy (9 ∷ []) 4 100 (encode_words (legacy_words event)))
    ≡ ok (meaning eth event order_filled_topic_legacy (9 ∷ []) 4 100)
decode-legacy_run =
    decode-legacy eth event order_filled_topic_legacy (9 ∷ []) 4 100 refl
      (omega arith, (omega arith, (omega arith, (omega arith, (omega arith, tt))))) (omega arith)
      (omega arith)

no_topics_run :
    decode eth (record { topics = []; content = []; tx_hash = []; index = 0; block_number = 0 })
    ≡ err no_topics
unfolding decode dispatch
no_topics_run = refl
