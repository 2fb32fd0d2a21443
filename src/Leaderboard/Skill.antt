-- ===== src/Leaderboard/Skill.antt =====
-- services/leaderboard/internal/skill: shrinkage toward the population's mean, the percentile score, and
-- the test for a wallet that cools off. `int` and math.Sqrt on floats are parameters.
pub mod Ranks
pub mod Streaks
pub mod Tests
use lobster_roll.Prelude.{
  ℕ, suc, ◌+◌, ◌-◌, Bool, true, false, List, [], ◌∷◌, GoString, ltb, ◌==◌, length, if◌then◌else◌,
}
use lobster_roll.Float.{Float, ◌<?◌, ◌≤?◌, ◌⊕◌, ◌⊖◌, ◌⊗◌, ◌⊘◌, nought, one}

-- What the code uses of math and of the conversion `int`.
pub record Reals {ℓ} (F : Type ℓ) : Type ℓ where
  pub to_int : F → ℕ
  pub sqrt : F → F

-- Sample sizes are not negative.
pub record Input {ℓ} (F : Type ℓ) : Type ℓ where
  pub wallet : GoString
  pub roi : F
  pub n : ℕ

pub record Result {ℓ} (F : Type ℓ) : Type ℓ where
  pub wallet : GoString
  pub shrunk_roi : F
  pub score : ℕ

abbrev pub fresh_min_samples : ℕ
fresh_min_samples = 20

module _ {ℓ} {F : Type ℓ} ⦃d : Float F⦄ where
  unfoldable pub sum_n : F → List (Input F) → F
  sum_n acc [] = acc
  sum_n acc (w ∷ pop) = sum_n (acc ⊕ d.of_ℕ w.n) pop

  unfoldable pub sum_n_roi : F → List (Input F) → F
  sum_n_roi acc [] = acc
  sum_n_roi acc (w ∷ pop) = sum_n_roi (acc ⊕ d.of_ℕ w.n ⊗ w.roi) pop

  unfoldable pub mean_roi : List (Input F) → F
  unfolding sum_n sum_n_roi
  mean_roi pop =
      if nought <? sum_n nought pop then sum_n_roi nought pop ⊘ sum_n nought pop else nought

  unfoldable pub shrunk : F → F → Input F → Result F
  shrunk k mu w =
      let n = d.of_ℕ w.n in
      record { wallet = w.wallet; shrunk_roi = (n ⊗ w.roi ⊕ k ⊗ mu) ⊘ (n ⊕ k); score = 0 }

  unfoldable pub shrink_each : F → F → List (Input F) → List (Result F)
  unfolding shrunk
  shrink_each k mu [] = []
  shrink_each k mu (w ∷ pop) = shrunk k mu w ∷ shrink_each k mu pop

  -- The wallets with a strictly smaller shrunk ROI.
  unfoldable pub smaller : F → List (Result F) → ℕ
  smaller x [] = 0
  smaller x (r ∷ rs) = let rest = smaller x rs in if r.shrunk_roi <? x then suc rest else rest

  unfoldable pub sum : F → List F → F
  sum acc [] = acc
  sum acc (x ∷ xs) = sum (acc ⊕ x) xs

  unfoldable pub sum_squares : F → F → List F → F
  sum_squares mean acc [] = acc
  sum_squares mean acc (x ∷ xs) = sum_squares mean (acc ⊕ (x ⊖ mean) ⊗ (x ⊖ mean)) xs

  unfoldable pub cusum_k : F
  cusum_k = d.lit 1 2

  unfoldable pub cusum_h : F
  cusum_h = d.of_ℕ 5

  unfoldable pub cusum_clamp : F
  cusum_clamp = d.of_ℕ 4

  unfoldable pub clamp : F → F
  unfolding cusum_clamp
  clamp z =
      if cusum_clamp <? z
      then cusum_clamp
      else if z <? d.neg cusum_clamp
      then d.neg cusum_clamp
      else z

  -- One observation of the series, standardized.
  unfoldable pub cusum_step : F → F → F → F → F
  unfolding clamp cusum_k
  cusum_step mean sd s r =
      let t = s ⊖ clamp ((r ⊖ mean) ⊘ sd) ⊖ cusum_k in if t <? nought then nought else t

  unfoldable pub cusum : F → F → F → List F → F
  unfolding cusum_step
  cusum mean sd s [] = s
  cusum mean sd s (r ∷ rs) = cusum mean sd (cusum_step mean sd s r) rs

module _ {ℓ} {F : Type ℓ} ⦃d : Float F⦄ (reals : Reals F) where
  open reals use {to_int, sqrt}

  -- The score of a rank among n wallets.
  unfoldable pub score_of : ℕ → ℕ → ℕ
  score_of n rank = to_int (d.of_ℕ rank ⊘ d.of_ℕ (n - 1) ⊗ d.of_ℕ 100 ⊕ d.lit 1 2)

  unfoldable pub score_each : ℕ → List (Result F) → List (Result F) → List (Result F)
  unfolding score_of smaller
  score_each n all [] = []
  score_each n all (r ∷ rs) =
      record r { score = score_of n (smaller r.shrunk_roi all) } ∷ score_each n all rs

  unfoldable pub score_first : List (Result F) → List (Result F)
  score_first [] = []
  score_first (r ∷ rs) = record r { score = 100 } ∷ rs

  unfoldable pub assign_scores : List (Result F) → List (Result F)
  unfolding score_each score_first
  assign_scores res = if length res == 1 then score_first res else score_each (length res) res res

  -- `Shrink`.
  unfoldable pub shrink : List (Input F) → F → List (Result F)
  unfolding mean_roi shrink_each assign_scores
  shrink [] k = []
  shrink (w ∷ pop) k =
      let prior = if k ≤? nought then one else k in
      assign_scores (shrink_each prior (mean_roi (w ∷ pop)) (w ∷ pop))

  -- `meanSD`.
  unfoldable pub mean_sd : List F → F × F
  unfolding sum sum_squares
  mean_sd xs =
      let n = d.of_ℕ (length xs) in
      let mean = sum nought xs ⊘ n in (mean, sqrt (sum_squares mean nought xs ⊘ n))

  unfoldable pub fresh : List F → Bool
  unfolding mean_sd cusum cusum_h
  fresh returns =
      if ltb (length returns) fresh_min_samples
      then true
      else (let (mean, sd) = mean_sd returns in
          if sd <? d.lit 1 1_000_000_000 then true else cusum mean sd nought returns ≤? cusum_h)
