-- ===== src/Leaderboard/Skill/Tests.antt =====
-- Runs of the scores and of the test for cooling off, and examples for their theorems.
use lobster_roll.Prelude.{
  ℕ, zero, suc, ◌/◌, ◌<◌, ◌≡◌, refl, true, List, [], ◌∷◌, ◌++◌, none, some, GoString, codes, pos,
  negsuc, map, All, replicate, arith, -ℤ_parts,
}
use lobster_roll.Float.{
  Fixed, fixed_float, Fixed-IsOrdered, ◌≤?◌, ◌⊖◌, nought, sub_fixed, neg_fixed, div_fixed,
  add_fixed, mul_fixed,
}
use lobster_roll.Leaderboard.Skill.{
  Input, Result, Reals, shrink, smaller, mean_roi, mean_sd, cusum, fresh, cusum_k, cusum_h,
  cusum_clamp,
}
use lobster_roll.Leaderboard.Skill.Ranks.{
  first, later, Ranked, IsRising, InOrder, pulled, wallets_of, inputs_of, smaller-lt, shrink-Ranked,
}
use lobster_roll.Leaderboard.Skill.Streaks.{IsSteady, fresh_last}

sub_antitone_fixed : (a b : Fixed) → (a ≤? b) ≡ true → (nought ⊖ b ≤? nought ⊖ a) ≡ true
unfolding sub_fixed
sub_antitone_fixed (some a) (some b) h = ground (arith, -ℤ_parts (pos 0) a, -ℤ_parts (pos 0) b)
sub_antitone_fixed (some a) none h = cc
sub_antitone_fixed none b h = cc

sub_slack_fixed : (x y : Fixed) → (x ≤? y) ≡ true → (x ⊖ cusum_k ≤? y ⊖ cusum_k) ≡ true
unfolding sub_fixed cusum_k
sub_slack_fixed (some a) (some b) h =
    ground (arith, -ℤ_parts a (pos 500_000), -ℤ_parts b (pos 500_000))
sub_slack_fixed (some a) none h = cc
sub_slack_fixed none b h = cc

Fixed-IsSteady : IsSteady Fixed
unfolding sub_fixed neg_fixed cusum_clamp cusum_k cusum_h
Fixed-IsSteady = record {
  sub_antitone = sub_antitone_fixed;
  sub_slack = sub_slack_fixed;
  clamp-IsNumber = refl;
  clamps_in_order = refl;
  one_step-le = refl;
  nought-le = refl;
}

abbrev whole : Fixed → ℕ
whole (some (pos n)) = n / 1_000_000
whole _ = 0

-- Truncation, and a square root that is right for 1.
abbrev pub reals : Reals Fixed
reals = record { to_int = whole; sqrt = λ x. some (pos 1_000_000) }

abbrev input : GoString → ℕ → ℕ → Input Fixed
input w roi n = record { wallet = w; roi = some (pos roi); n = n }

abbrev pool : List (Input Fixed)
pool =
    input (codes "a") 500_000 5 ∷ input (codes "b") 200_000 300 ∷ input (codes "c") 100_000 100 ∷ []

abbrev scored : List (Result Fixed)
scored = shrink reals pool (some (pos 50_000_000))

-- The small sample is pulled to the mean, and still comes first.
ranks : map (λ r. r.score) scored ≡ 100 ∷ 50 ∷ 0 ∷ []
unfolding shrink add_fixed mul_fixed div_fixed
ranks = refl

rising : IsRising reals 3
unfolding IsRising mul_fixed div_fixed add_fixed
rising zero j h k = omega arith
rising (suc i) zero h k = absurd (omega arith)
rising (suc zero) (suc zero) h k = omega arith
rising (suc zero) (suc (suc zero)) h k = omega arith
rising (suc (suc i)) (suc zero) h k = absurd (omega arith)
rising (suc (suc zero)) (suc (suc zero)) h k = omega arith
rising (suc (suc (suc i))) (suc (suc zero)) h k = absurd (omega arith)
rising (suc i) (suc (suc (suc j))) h k = absurd (omega arith)

shrink-Ranked_example :
    (wallets_of reals scored ≡ codes "a" ∷ codes "b" ∷ codes "c" ∷ [])
    × (map (λ (r : Result Fixed). r.shrunk_roi) scored
        ≡ map (pulled reals (some (pos 50_000_000)) (mean_roi pool)) pool)
    × All (Ranked reals 3 scored) scored
    × All (λ a. All (InOrder reals scored a) scored) scored
unfolding inputs_of
shrink-Ranked_example =
    shrink-Ranked reals Fixed-IsOrdered (input (codes "a") 500_000 5)
      (input (codes "b") 200_000 300) (input (codes "c") 100_000 100 ∷ []) (some (pos 50_000_000))
      rising

abbrev low : Result Fixed
low = record { wallet = codes "c"; shrunk_roi = some (pos 100_000); score = 0 }

abbrev high : Result Fixed
high = record { wallet = codes "a"; shrunk_roi = some (pos 300_000); score = 100 }

smaller-lt_run :
    (smaller (some (pos 100_000)) (low ∷ high ∷ [])
      < smaller (some (pos 300_000)) (low ∷ high ∷ []))
    × (smaller (some (pos 300_000)) (low ∷ high ∷ []) < 2)
smaller-lt_run = smaller-lt Fixed-IsOrdered (low ∷ high ∷ []) low high first (later first) refl

-- Twenty good returns, then a very bad one.
abbrev streak : List Fixed
streak = replicate 20 (some (pos 1_000_000))

abbrev loss : Fixed
loss = some (negsuc 99_999_999)

fresh_last_example : fresh reals (streak ++ loss ∷ []) ≡ true
unfolding mean_sd cusum sub_fixed div_fixed add_fixed
fresh_last_example =
    fresh_last Fixed-IsOrdered Fixed-IsSteady reals streak loss
      (mean_sd reals (streak ++ loss ∷ [])).0 (some (pos 1_000_000)) refl refl refl
