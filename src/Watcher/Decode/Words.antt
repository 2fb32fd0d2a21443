-- ===== src/Watcher/Decode/Words.antt =====
-- Encoding words of 32 bytes, and reading them back from a log's data.
use native.Mathlib.Nat.{pow-suc, zero-add, suc-add}
use lobster_roll.Prelude.{
  ℕ, zero, suc, ◌+◌, ◌*◌, ◌/◌, ◌%◌, ◌^◌, ◌<◌, ◌≡◌, refl, ◌∙◌, ap, List, [], ◌∷◌, ◌++◌, length,
  length-append, take, drop, foldl, arith,
}
use lobster_roll.Watcher.Decode.{set_bytes, word}

-- The k bytes of a number, the most significant one first.
pub be_bytes : ℕ → ℕ → List ℕ
be_bytes zero n = []
be_bytes (suc k) n = be_bytes k (n / 256) ++ (n % 256 ∷ [])

pub length-be_bytes : (k n : ℕ) → length (be_bytes k n) ≡ k
unfolding be_bytes
length-be_bytes zero n = refl
length-be_bytes (suc k) n =
    omega (arith, length-append (be_bytes k (n / 256)) (n % 256 ∷ []), length-be_bytes k (n / 256))

foldl-snoc :
    (f : ℕ → ℕ → ℕ) (acc x : ℕ) (xs : List ℕ) → foldl f acc (xs ++ x ∷ []) ≡ f (foldl f acc xs) x
foldl-snoc f acc x [] = refl
foldl-snoc f acc x (y ∷ ys) = foldl-snoc f (f acc y) x ys

pub set_bytes-be_bytes : (k n : ℕ) → n < 256 ^ k → set_bytes (be_bytes k n) ≡ n
unfolding set_bytes be_bytes
set_bytes-be_bytes zero n h = omega arith
set_bytes-be_bytes (suc k) n h =
    foldl-snoc (λ acc b. acc * 256 + b) 0 (n % 256) (be_bytes k (n / 256))
    ∙ omega (arith, set_bytes-be_bytes k (n / 256), pow-suc 256 k)

take-append : (n : ℕ) (xs ys : List ℕ) → length xs ≡ n → take n (xs ++ ys) ≡ xs
take-append zero [] ys h = refl
take-append zero (x ∷ xs) ys h = absurd (omega arith)
take-append (suc n) [] ys h = absurd (omega arith)
take-append (suc n) (x ∷ xs) ys h = ap (◌∷◌ x) (take-append n xs ys (omega arith))

drop-append : (n m : ℕ) (xs ys : List ℕ) → length xs ≡ n → drop (n + m) (xs ++ ys) ≡ drop m ys
drop-append zero m [] ys h = rw zero-add
drop-append zero m (x ∷ xs) ys h = absurd (omega arith)
drop-append (suc n) m [] ys h = absurd (omega arith)
drop-append (suc n) m (x ∷ xs) ys h = rw suc-add (drop-append n m xs ys (omega arith))

pub word-zero : (w r : List ℕ) → length w ≡ 32 → word (w ++ r) 0 ≡ w
unfolding word
word-zero w r h = take-append 32 w r h

pub word-suc : (i : ℕ) (w r : List ℕ) → length w ≡ 32 → word (w ++ r) (suc i) ≡ word r i
unfolding word
word-suc i w r h =
    let e : suc i * 32 ≡ 32 + i * 32 = omega arith in
    rw e (ap (take 32) (drop-append 32 (i * 32) w r h))
