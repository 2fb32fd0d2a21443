-- ===== src/Watcher/Decode/RoundTrip.antt =====
-- Both ABIs of OrderFilled, encoded and decoded.
use lobster_roll.Prelude.{
  ℕ, zero, suc, ◌*◌, ◌^◌, ◌≤◌, ◌<◌, ◌≡◌, refl, true, false, List, [], ◌∷◌, ◌++◌, length,
  length-append, ◌≟◌, bytes_eq, beq_of_eq, beq_refl, bytes_beq, arith, if◌then◌else◌, ◌==◌, some,
}
use lobster_roll.Watcher.Decode.{
  Eth, Log, OrderFilled, ok, order_filled_topic, order_filled_topic_legacy, set_bytes, word,
  is_side, decode_order_filled, decode_order_filled_legacy, legacy_side, decode,
}
use lobster_roll.Watcher.Decode.Words.{
  be_bytes, length-be_bytes, set_bytes-be_bytes, word-zero, word-suc,
}

-- The data of an event: its words, one after the other.
pub encode_words : List ℕ → List ℕ
encode_words [] = []
encode_words (n ∷ ns) = be_bytes 32 n ++ encode_words ns

length-encode_words : (ns : List ℕ) → length (encode_words ns) ≡ length ns * 32
unfolding encode_words
length-encode_words [] = refl
length-encode_words (n ∷ ns) = omega (
  arith,
  length-append (be_bytes 32 n) (encode_words ns),
  length-be_bytes 32 n,
  length-encode_words ns,
)

abbrev pub nth : ℕ → List ℕ → ℕ
nth i [] = 0
nth zero (n ∷ ns) = n
nth (suc i) (n ∷ ns) = nth i ns

abbrev pub Fits : List ℕ → Type 0
Fits [] = Unit {0}
Fits (n ∷ ns) = (n < 256 ^ 32) × Fits ns

word-encode_words :
    (i : ℕ) (ns : List ℕ)
    → i < length ns
    → Fits ns
    → set_bytes (word (encode_words ns) i) ≡ nth i ns
unfolding encode_words
word-encode_words i [] h f = absurd (omega arith)
word-encode_words zero (n ∷ ns) h (f, fs) =
    rw (word-zero (be_bytes 32 n) (encode_words ns) (length-be_bytes 32 n))
      (set_bytes-be_bytes 32 n f)
word-encode_words (suc i) (n ∷ ns) h (f, fs) =
    rw (word-suc i (be_bytes 32 n) (encode_words ns) (length-be_bytes 32 n))
      (word-encode_words i ns (omega arith) fs)

-- An event, as the exchange emits it in one of its two ABIs.
pub record Event : Type 0 where
  pub order : List ℕ
  pub maker : List ℕ
  pub taker : List ℕ
  pub side : ℕ
  pub token : ℕ
  pub maker_amount : ℕ
  pub taker_amount : ℕ
  pub fee : ℕ
  pub builder : ℕ
  pub metadata : ℕ

abbrev pub words : Event → List ℕ
words e = e.side ∷ e.token ∷ e.maker_amount ∷ e.taker_amount ∷ e.fee ∷ e.builder ∷ e.metadata ∷ []

-- In the legacy ABI the side is told by the asset that is collateral, id 0.
abbrev pub legacy_words : Event → List ℕ
legacy_words e =
    (if e.side == 0 then 0 else e.token)
    ∷ (if e.side == 0 then e.token else 0)
    ∷ e.maker_amount
    ∷ e.taker_amount
    ∷ e.fee
    ∷ []

is_side-le : (s : ℕ) → s ≤ 1 → is_side s ≡ true
unfolding is_side
is_side-le s h = ground arith

topics-differ : (order_filled_topic_legacy ≟ order_filled_topic) ≡ false
unfolding order_filled_topic order_filled_topic_legacy bytes_beq
topics-differ = refl

legacy_side-words :
    (side token : ℕ)
    → side ≤ 1
    → 0 < token
    → legacy_side (if side == 0 then 0 else token) (if side == 0 then token else 0)
      ≡ some (side, token)
unfolding legacy_side
legacy_side-words side token s n = ground arith

module _ (eth : Eth) (e : Event) (topic tx : List ℕ) (index block : ℕ) where
  abbrev pub log_of : List ℕ → Log
  log_of content = record {
    topics = topic ∷ e.order ∷ e.maker ∷ e.taker ∷ [];
    content = content;
    tx_hash = tx;
    index = index;
    block_number = block;
  }

  -- What both decoders are to find.
  abbrev pub meaning : OrderFilled
  meaning = record {
    order_hash = e.order;
    maker = eth.bytes_to_address e.maker;
    taker = eth.bytes_to_address e.taker;
    side = e.side;
    token_id = e.token;
    maker_amount = e.maker_amount;
    taker_amount = e.taker_amount;
    fee = e.fee;
    tx_hash = tx;
    log_index = index;
    block_number = block;
  }

  -- The log of an event in the current ABI, whose words fit 256 bits and whose side is 0 or 1,
  -- decodes to the event's order, addresses, side, token, amounts and fee and the log's position.
  pub decode-current :
      eth.hash_hex topic ≡ order_filled_topic
      → Fits (words e)
      → e.side ≤ 1
      → decode eth (log_of (encode_words (words e))) ≡ ok meaning
  unfolding decode decode_order_filled
  decode-current t f s =
      let ns = words e in
      rw (
        beq_of_eq (eth.hash_hex topic) order_filled_topic t,
        length-encode_words ns,
        word-encode_words 0 ns (omega arith) f,
        is_side-le e.side s,
        word-encode_words 1 ns (omega arith) f,
        word-encode_words 2 ns (omega arith) f,
        word-encode_words 3 ns (omega arith) f,
        word-encode_words 4 ns (omega arith) f,
      )

  -- The log of an event in the legacy ABI, whose words fit 256 bits, whose side is 0 or 1 and whose
  -- token is not 0, decodes to the same as in the current ABI.
  pub decode-legacy :
      eth.hash_hex topic ≡ order_filled_topic_legacy
      → Fits (legacy_words e)
      → e.side ≤ 1
      → 0 < e.token
      → decode eth (log_of (encode_words (legacy_words e))) ≡ ok meaning
  unfolding decode decode_order_filled_legacy
  decode-legacy t f s n =
      let ns = legacy_words e in
      rw (
        t,
        topics-differ,
        beq_refl order_filled_topic_legacy,
        length-encode_words ns,
        word-encode_words 0 ns (omega arith) f,
        word-encode_words 1 ns (omega arith) f,
        word-encode_words 2 ns (omega arith) f,
        word-encode_words 3 ns (omega arith) f,
        word-encode_words 4 ns (omega arith) f,
        legacy_side-words e.side e.token s n,
      )
