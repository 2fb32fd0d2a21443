-- ===== src/Trader/Order/Encoding.antt =====
-- The bytes that are hashed for a signature tell the order.
use lobster_roll.Prelude.{
  ℕ, zero, suc, ◌^◌, ◌<◌, ◌≡◌, refl, sym, ap, ◌∙◌, List, [], ◌∷◌, ◌++◌, length, replicate, All, ℤ,
  pos, negsuc, arith,
}
use lobster_roll.Watcher.Decode.{set_bytes}
use lobster_roll.Watcher.Decode.Words.{length-be_bytes, set_bytes-be_bytes}
use lobster_roll.Trader.Order.{
  Order, magnitude, uint_word, u8_word, addr_word, concat, fields, order_type_hash, struct_bytes,
}

-- A number that a word of 32 bytes holds.
abbrev pub IsWord : ℤ → Type 0
IsWord (pos n) = n < 256 ^ 32
IsWord (negsuc n) = ⊥

-- The fields have the sizes of their Solidity types.
pub record Fits (o : Order) : Type 0 where
  pub salt : IsWord o.salt
  pub maker : length o.maker ≡ 20
  pub signer : length o.signer ≡ 20
  pub token_id : IsWord o.token_id
  pub maker_amount : IsWord o.maker_amount
  pub taker_amount : IsWord o.taker_amount
  pub side : o.side < 256
  pub signature_type : o.signature_type < 256
  pub timestamp : IsWord o.timestamp
  pub metadata : length o.metadata ≡ 32
  pub builder : length o.builder ≡ 32

append_split : (a b x y : List ℕ) → length a ≡ length b → a ++ x ≡ b ++ y → (a ≡ b) × (x ≡ y)
append_split [] [] x y h e = (refl, e)
append_split [] (c ∷ b) x y h e = absurd (omega (arith, h))
append_split (c ∷ a) [] x y h e = absurd (omega (arith, h))
append_split (c ∷ a) (d ∷ b) x y h e = ground (arith, append_split a b x y)

uint_word-injective : (a b : ℤ) → IsWord a → IsWord b → uint_word a ≡ uint_word b → a ≡ b
unfolding uint_word magnitude
uint_word-injective (pos m) (pos n) p q e =
    ap pos (sym (set_bytes-be_bytes 32 m p) ∙ ap set_bytes e ∙ set_bytes-be_bytes 32 n q)
uint_word-injective (negsuc m) b p q e = elim p [ ]
uint_word-injective (pos m) (negsuc n) p q e = elim q [ ]

in_word : (a : ℕ) → a < 256 → a < 256 ^ 32
in_word a h = omega arith

u8_word-injective : (a b : ℕ) → a < 256 → b < 256 → u8_word a ≡ u8_word b → a ≡ b
unfolding u8_word
u8_word-injective a b p q e =
    sym (set_bytes-be_bytes 32 a (in_word a p))
    ∙ ap set_bytes e
    ∙ set_bytes-be_bytes 32 b (in_word b q)

addr_word-injective : (a b : List ℕ) → addr_word a ≡ addr_word b → a ≡ b
unfolding addr_word
addr_word-injective a b e = (append_split (replicate 12 0) (replicate 12 0) a b refl e).1

-- A list of words of 32 bytes.
AreWords : List (List ℕ) → Type 0
AreWords ws = All (λ w. length w ≡ 32) ws

concat-injective :
    (ws vs : List (List ℕ))
    → AreWords ws
    → AreWords vs
    → length ws ≡ length vs
    → concat ws ≡ concat vs
    → ws ≡ vs
unfolding concat AreWords
concat-injective [] [] p q h e = refl
concat-injective [] (v ∷ vs) p q h e = absurd (omega (arith, h))
concat-injective (w ∷ ws) [] p q h e = absurd (omega (arith, h))
concat-injective (w ∷ ws) (v ∷ vs) (a, p) (b, q) h e =
    let (same, rest) = append_split w v (concat ws) (concat vs) (a ∙ sym b) e in
    ap (λ x. x ∷ ws) same ∙ ap (λ xs. v ∷ xs) (concat-injective ws vs p q (omega (arith, h)) rest)

fields-AreWords : (o : Order) → Fits o → AreWords (fields o)
unfolding fields AreWords uint_word u8_word addr_word
fields-AreWords o f =
    let word = λ (z : ℤ). length-be_bytes 32 (magnitude z) in
    (
      word o.salt,
      (
        omega (arith, f.maker),
        (
          omega (arith, f.signer),
          (
            word o.token_id,
            (
              word o.maker_amount,
              (
                word o.taker_amount,
                (
                  length-be_bytes 32 o.side,
                  (
                    length-be_bytes 32 o.signature_type,
                    (word o.timestamp, (f.metadata, (f.builder, tt))),
                  ),
                ),
              ),
            ),
          ),
        ),
      ),
    )

-- The i-th word of a list.
nth : ℕ → List (List ℕ) → List ℕ
nth n [] = []
nth zero (w ∷ ws) = w
nth (suc n) (w ∷ ws) = nth n ws

-- Two orders that fit and whose hashed bytes are the same are the same order, whatever Keccak gives for
-- the type string: a signature of the bytes commits to every field.
pub struct_bytes-injective :
    (keccak : List ℕ → List ℕ) (o p : Order)
    → Fits o
    → Fits p
    → struct_bytes keccak o ≡ struct_bytes keccak p
    → o ≡ p
unfolding struct_bytes fields nth
struct_bytes-injective keccak o p f g e =
    let same =
      concat-injective (fields o) (fields p) (fields-AreWords o f) (fields-AreWords p g) refl
        (append_split (order_type_hash keccak) (order_type_hash keccak) (concat (fields o))
          (concat (fields p)) refl e).1 in
    let salt = uint_word-injective o.salt p.salt f.salt g.salt (ap (nth 0) same) in
    let maker = addr_word-injective o.maker p.maker (ap (nth 1) same) in
    let signer = addr_word-injective o.signer p.signer (ap (nth 2) same) in
    let token = uint_word-injective o.token_id p.token_id f.token_id g.token_id (ap (nth 3) same) in
    let made =
      uint_word-injective o.maker_amount p.maker_amount f.maker_amount g.maker_amount
        (ap (nth 4) same) in
    let taken =
      uint_word-injective o.taker_amount p.taker_amount f.taker_amount g.taker_amount
        (ap (nth 5) same) in
    let side = u8_word-injective o.side p.side f.side g.side (ap (nth 6) same) in
    let kind =
      u8_word-injective o.signature_type p.signature_type f.signature_type g.signature_type
        (ap (nth 7) same) in
    let time =
      uint_word-injective o.timestamp p.timestamp f.timestamp g.timestamp (ap (nth 8) same) in
    let metadata : o.metadata ≡ p.metadata = ap (nth 9) same in
    let builder : o.builder ≡ p.builder = ap (nth 10) same in
    λ i. record {
      salt = salt i;
      maker = maker i;
      signer = signer i;
      token_id = token i;
      maker_amount = made i;
      taker_amount = taken i;
      side = side i;
      signature_type = kind i;
      timestamp = time i;
      metadata = metadata i;
      builder = builder i;
    }
