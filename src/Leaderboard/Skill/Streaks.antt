-- ===== src/Leaderboard/Skill/Streaks.antt =====
-- When a wallet counts as cooling off.
use lobster_roll.Prelude.{
  ◌≡◌, refl, ap, ◌∙◌, Bool, true, List, [], ◌∷◌, ◌++◌, length, ltb, if_cases,
}
use lobster_roll.Float.{Float, IsNumber, IsOrdered, ◌<?◌, ◌≤?◌, ◌⊖◌, ◌⊘◌, nought, fixed_float}
use lobster_roll.Leaderboard.Skill.{
  Reals, cusum_k, cusum_h, cusum_clamp, clamp, cusum_step, cusum, mean_sd, fresh, fresh_min_samples,
}

-- What IEEE 754's subtraction keeps of the order, and the value of the code's constants: from 0 the
-- smallest observation gives 0 + 4 - 1/2, which is not above 5.
pub record IsSteady {ℓ} (F : Type ℓ) ⦃d : Float F⦄ : Type ℓ where
  pub sub_antitone : (a b : F) → (a ≤? b) ≡ true → (nought ⊖ b ≤? nought ⊖ a) ≡ true
  pub sub_slack : (x y : F) → (x ≤? y) ≡ true → (x ⊖ cusum_k ≤? y ⊖ cusum_k) ≡ true
  pub clamp-IsNumber : IsNumber {F = F} (d.neg cusum_clamp)
  pub clamps_in_order : (d.neg (cusum_clamp {F = F}) ≤? cusum_clamp) ≡ true
  pub one_step-le : (nought {F = F} ⊖ d.neg cusum_clamp ⊖ cusum_k ≤? cusum_h) ≡ true
  pub nought-le : (nought {F = F} ≤? cusum_h) ≡ true

module _ {ℓ} {F : Type ℓ} ⦃d : Float F⦄ (o : IsOrdered F) (st : IsSteady F) where
  cusum-append :
      (mean sd s : F) (xs : List F) (r : F)
      → cusum mean sd s (xs ++ r ∷ []) ≡ cusum_step mean sd (cusum mean sd s xs) r
  unfolding cusum
  cusum-append mean sd s [] r = refl
  cusum-append mean sd s (x ∷ xs) r = cusum-append mean sd (cusum_step mean sd s x) xs r

  clamp-ge : (z : F) → IsNumber z → (d.neg cusum_clamp ≤? clamp z) ≡ true
  unfolding clamp
  clamp-ge z n =
      let P : F → Type 0 = λ x. (d.neg cusum_clamp ≤? x) ≡ true in
      if_cases P (cusum_clamp <? z) _ _ (λ _. st.clamps_in_order)
        (λ _.
          if_cases P (z <? d.neg cusum_clamp) _ _ (λ _. st.clamp-IsNumber)
            (λ h. o.not_lt-le z (d.neg cusum_clamp) n st.clamp-IsNumber h))

  one_step :
      (mean sd r : F) → IsNumber ((r ⊖ mean) ⊘ sd) → (cusum_step mean sd nought r ≤? cusum_h) ≡ true
  unfolding cusum_step
  one_step mean sd r n =
      let z = (r ⊖ mean) ⊘ sd in
      let t = nought ⊖ clamp z ⊖ cusum_k in
      if_cases (λ (x : F). (x ≤? cusum_h) ≡ true) (t <? nought) _ _ (λ _. st.nought-le)
        (λ _.
          o.le_trans t (nought ⊖ d.neg cusum_clamp ⊖ cusum_k) cusum_h
            (st.sub_slack (nought ⊖ clamp z) (nought ⊖ d.neg cusum_clamp)
              (st.sub_antitone (d.neg cusum_clamp) (clamp z) (clamp-ge z n)))
            st.one_step-le)

  -- A single observation, however bad, does not flag a wallet: when the statistic has drained to 0 before
  -- the last return, and that return standardizes to a number, the wallet is fresh.
  pub fresh_last :
      (reals : Reals F) (xs : List F) (r mean sd : F)
      → mean_sd reals (xs ++ r ∷ []) ≡ (mean, sd)
      → cusum mean sd nought xs ≡ nought
      → IsNumber ((r ⊖ mean) ⊘ sd)
      → fresh reals (xs ++ r ∷ []) ≡ true
  unfolding fresh
  fresh_last reals xs r mean sd e drained n =
      let P : Bool → Type 0 = λ b. b ≡ true in
      let whole = xs ++ r ∷ [] in
      let flat = (mean_sd reals whole).1 <? d.lit 1 1_000_000_000 in
      if_cases P (ltb (length whole) fresh_min_samples) _ _ (λ _. refl)
        (λ _.
          if_cases P flat _ _ (λ _. refl)
            (λ _.
              ap (λ p. cusum p.0 p.1 nought whole ≤? cusum_h) e
              ∙ ap (λ s. s ≤? cusum_h)
                  (cusum-append mean sd nought xs r ∙ ap (λ s. cusum_step mean sd s r) drained)
              ∙ one_step mean sd r n))
