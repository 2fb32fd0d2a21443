-- ===== src/Leaderboard/Skill/Ranks.antt =====
-- What a score tells of a wallet's place.
use mathlib.Core.Path.{subst}
use lobster_roll.Prelude.{
  ℕ, suc, ◌-◌, ◌≤◌, ◌<◌, ◌≡◌, ◌⊎◌, refl, ap, sym, ◌∙◌, inl, inr, true, false, List, [], ◌∷◌,
  GoString, length, keep, map, All, ◌==◌, Bool-cases, if◌then◌else◌, arith,
}
use lobster_roll.Float.{Float, IsOrdered, ◌<?◌, ◌≤?◌, ◌⊕◌, ◌⊗◌, ◌⊘◌, nought, one}
use lobster_roll.Leaderboard.Skill.{
  Input, Result, Reals, shrunk, shrink_each, mean_roi, smaller, score_of, score_each, assign_scores,
  shrink,
}

-- The result is one of the list.
pub data Among {ℓ} {A : Type ℓ} (a : A) : List A → Type ℓ where
  first : {xs : List A} → Among a (a ∷ xs)
  later : {x : A} {xs : List A} → Among a xs → Among a (x ∷ xs)

module _ {ℓ} {F : Type ℓ} ⦃d : Float F⦄ where
  lt_trans : IsOrdered F → (x y z : F) → (x <? y) ≡ true → (y <? z) ≡ true → (x <? z) ≡ true
  lt_trans o x y z p q = elim (Bool-cases (z ≤? x)) [
    | inl h ↦ absurd (ground (arith, o.lt-not-le y z q, o.le_trans z x y h (o.lt-le x y p)))
    | inr h ↦
        o.not_le-lt z x (o.le-IsNumber_right y z (o.lt-le y z q))
          (o.le-IsNumber_left x y (o.lt-le x y p)) h
  ]

  smaller-le :
      IsOrdered F → (x y : F) (rs : List (Result F)) → (x <? y) ≡ true → smaller x rs ≤ smaller y rs
  unfolding smaller
  smaller-le o x y [] h = omega arith
  smaller-le o x y (r ∷ rs) h = ground (arith, smaller-le o x y rs h, lt_trans o r.shrunk_roi x y)

  smaller-length : (x : F) (rs : List (Result F)) → smaller x rs ≤ length rs
  unfolding smaller
  smaller-length x [] = omega arith
  smaller-length x (r ∷ rs) = ground (arith, smaller-length x rs)

  not-lt_self : IsOrdered F → (x : F) → (x <? x) ≡ false
  not-lt_self o x = elim (Bool-cases (x <? x)) [
    | inl h ↦ absurd (ground (arith, o.lt-not-le x x h, o.lt-le x x h))
    | inr h ↦ h
  ]

  below-larger :
      IsOrdered F
      → (r : Result F) (y : F) (rs : List (Result F)) → Among r rs
      → (r.shrunk_roi <? y) ≡ true
      → smaller r.shrunk_roi rs < smaller y rs
  unfolding smaller
  below-larger o r y [] m h = elim m [ ]
  below-larger o r y (x ∷ rs) first h =
      ground (arith, smaller-le o r.shrunk_roi y rs h, not-lt_self o r.shrunk_roi, h)
  below-larger o r y (x ∷ rs) (later m) h =
      ground (arith, below-larger o r y rs m h, lt_trans o x.shrunk_roi r.shrunk_roi y)

  below-all :
      IsOrdered F
      → (r : Result F) (rs : List (Result F)) → Among r rs
      → smaller r.shrunk_roi rs < length rs
  unfolding smaller
  below-all o r [] m = elim m [ ]
  below-all o r (x ∷ rs) first =
      ground (arith, smaller-length r.shrunk_roi rs, not-lt_self o r.shrunk_roi)
  below-all o r (x ∷ rs) (later m) = ground (arith, below-all o r rs m)

  -- A wallet of a scored population has fewer wallets below it than the population has, and fewer than a
  -- wallet of the population with a larger shrunk ROI.
  pub smaller-lt :
      IsOrdered F
      → (rs : List (Result F)) (a b : Result F) → Among a rs
      → Among b rs
      → (a.shrunk_roi <? b.shrunk_roi) ≡ true
      → (smaller a.shrunk_roi rs < smaller b.shrunk_roi rs) × (smaller b.shrunk_roi rs < length rs)
  smaller-lt o rs a b m n h = (below-larger o a b.shrunk_roi rs m h, below-all o b rs n)

All-Among {ℓ κ} :
    {A : Type ℓ} (P : A → Type κ) (xs : List A) → ((x : A) → Among x xs → P x) → All P xs
All-Among P [] f = tt
All-Among P (x ∷ xs) f = (f x first, All-Among P xs (λ y m. f y (later m)))

Among-All {ℓ κ} : {A : Type ℓ} (P : A → Type κ) (x : A) (xs : List A) → Among x xs → All P xs → P x
Among-All P x [] m a = elim m [ ]
Among-All P x (y ∷ xs) first (p, a) = p
Among-All P x (y ∷ xs) (later m) (p, a) = Among-All P x xs m a

module _ {ℓ} {F : Type ℓ} ⦃d : Float F⦄ where
  -- How many of the results have a smaller shrunk ROI.
  abbrev pub below : F → List (Result F) → ℕ
  below x rs = length (keep (λ (r : Result F). r.shrunk_roi <? x) rs)

  smaller-below : (x : F) (rs : List (Result F)) → smaller x rs ≡ below x rs
  unfolding smaller keep
  smaller-below x [] = refl
  smaller-below x (r ∷ rs) = ground (arith, smaller-below x rs)

module _ {ℓ} {F : Type ℓ} ⦃d : Float F⦄ (reals : Reals F) where
  length-shrink_each :
      (k mu : F) (pop : List (Input F)) → length (shrink_each k mu pop) ≡ length pop
  unfolding shrink_each
  length-shrink_each k mu [] = refl
  length-shrink_each k mu (w ∷ pop) = omega (arith, length-shrink_each k mu pop)

  smaller-score_each :
      (x : F) (n : ℕ) (all rs : List (Result F))
      → smaller x (score_each reals n all rs) ≡ smaller x rs
  unfolding smaller score_each
  smaller-score_each x n all [] = refl
  smaller-score_each x n all (r ∷ rs) = ground (arith, smaller-score_each x n all rs)

  -- The share of n - 1 that a rank has, in percent, to the nearest whole number.
  abbrev pub percent : ℕ → ℕ → ℕ
  percent n rank = reals.to_int (d.of_ℕ rank ⊘ d.of_ℕ (n - 1) ⊗ d.of_ℕ 100 ⊕ d.lit 1 2)

  -- A wallet is scored by the number of those with a smaller shrunk ROI.
  abbrev pub Ranked : ℕ → List (Result F) → Result F → Type 0
  Ranked n all r = r.score ≡ percent n (below r.shrunk_roi all)

  -- The float operations and the truncation of a score do not go down when the rank goes up.
  unfoldable pub IsRising : ℕ → Type 0
  IsRising n = (i j : ℕ) → i ≤ j → j < n → percent n i ≤ percent n j

  -- If the second has the larger shrunk ROI, it has more wallets below it, and no smaller score.
  abbrev pub InOrder : List (Result F) → Result F → Result F → Type 0
  InOrder all a b =
      ((a.shrunk_roi <? b.shrunk_roi) ≡ false)
      ⊎ ((below a.shrunk_roi all < below b.shrunk_roi all) × (a.score ≤ b.score))

  Ranked-InOrder :
      IsOrdered F
      → (n : ℕ) (rs : List (Result F)) (a b : Result F) → IsRising n
      → length rs ≡ n
      → All (Ranked n rs) rs
      → Among a rs
      → Among b rs
      → InOrder rs a b
  unfolding IsRising
  Ranked-InOrder o n rs a b rising size ranked i j =
      elim (Bool-cases (a.shrunk_roi <? b.shrunk_roi)) [
        | inr h ↦ inl h
        | inl h ↦
            let (lt, top) = smaller-lt o rs a b i j h in
            let x = below a.shrunk_roi rs in
            let y = below b.shrunk_roi rs in
            let less : x < y =
              omega (arith, lt, smaller-below a.shrunk_roi rs, smaller-below b.shrunk_roi rs) in
            let inside : y < n = omega (arith, top, smaller-below b.shrunk_roi rs, size) in
            inr (
              less,
              omega (
                arith,
                Among-All (Ranked n rs) a rs i ranked,
                Among-All (Ranked n rs) b rs j ranked,
                rising x y (omega (arith, less)) inside,
              ),
            )
      ]

  score_each-Ranked :
      (n : ℕ) (all rs : List (Result F)) → All (Ranked n all) (score_each reals n all rs)
  unfolding score_each score_of
  score_each-Ranked n all [] = tt
  score_each-Ranked n all (r ∷ rs) =
      (ap (percent n) (smaller-below r.shrunk_roi all), score_each-Ranked n all rs)

  length-score_each :
      (n : ℕ) (all rs : List (Result F)) → length (score_each reals n all rs) ≡ length rs
  unfolding score_each
  length-score_each n all [] = refl
  length-score_each n all (r ∷ rs) = ap suc (length-score_each n all rs)

  reranked :
      (n : ℕ) (all other rs : List (Result F))
      → ((x : F) → below x other ≡ below x all)
      → All (Ranked n all) rs
      → All (Ranked n other) rs
  reranked n all other [] same a = tt
  reranked n all other (r ∷ rs) same (p, a) =
      (rw (same r.shrunk_roi) p, reranked n all other rs same a)

  -- The wallets of a result list.
  unfoldable pub wallets_of : List (Result F) → List GoString
  wallets_of [] = []
  wallets_of (r ∷ rs) = r.wallet ∷ wallets_of rs

  unfoldable pub inputs_of : List (Input F) → List GoString
  inputs_of [] = []
  inputs_of (w ∷ pop) = w.wallet ∷ inputs_of pop

  wallets_of-score_each :
      (n : ℕ) (all rs : List (Result F)) → wallets_of (score_each reals n all rs) ≡ wallets_of rs
  unfolding wallets_of score_each
  wallets_of-score_each n all [] = refl
  wallets_of-score_each n all (r ∷ rs) = ap (λ ws. r.wallet ∷ ws) (wallets_of-score_each n all rs)

  wallets_of-shrink_each :
      (k mu : F) (pop : List (Input F)) → wallets_of (shrink_each k mu pop) ≡ inputs_of pop
  unfolding wallets_of inputs_of shrink_each shrunk
  wallets_of-shrink_each k mu [] = refl
  wallets_of-shrink_each k mu (w ∷ pop) = ap (λ ws. w.wallet ∷ ws) (wallets_of-shrink_each k mu pop)

  rois_of : List (Result F) → List F
  rois_of rs = map (λ (r : Result F). r.shrunk_roi) rs

  rois_of-score_each :
      (n : ℕ) (all rs : List (Result F)) → rois_of (score_each reals n all rs) ≡ rois_of rs
  unfolding rois_of score_each
  rois_of-score_each n all [] = refl
  rois_of-score_each n all (r ∷ rs) = ap (λ xs. r.shrunk_roi ∷ xs) (rois_of-score_each n all rs)

  -- A ROI pulled to the mean, by the weight of its sample against the prior's.
  abbrev pub pulled : F → F → Input F → F
  pulled prior mean w = (d.of_ℕ w.n ⊗ w.roi ⊕ prior ⊗ mean) ⊘ (d.of_ℕ w.n ⊕ prior)

  rois_of-shrink_each :
      (k mu : F) (pop : List (Input F)) → rois_of (shrink_each k mu pop) ≡ map (pulled k mu) pop
  unfolding rois_of shrink_each shrunk
  rois_of-shrink_each k mu [] = refl
  rois_of-shrink_each k mu (w ∷ pop) = ap (λ xs. pulled k mu w ∷ xs) (rois_of-shrink_each k mu pop)

  assign_scores-Ranked :
      (res : List (Result F))
      → (length res == 1) ≡ false
      → (wallets_of (assign_scores reals res) ≡ wallets_of res)
        × All (Ranked (length res) (assign_scores reals res)) (assign_scores reals res)
        × (length (assign_scores reals res) ≡ length res)
        × (rois_of (assign_scores reals res) ≡ rois_of res)
  unfolding assign_scores
  assign_scores-Ranked res h =
      let n = length res in
      rw h (
        wallets_of-score_each n res res,
        reranked n res (score_each reals n res res) (score_each reals n res res)
            (λ x.
              sym (smaller-below x (score_each reals n res res))
              ∙ smaller-score_each x n res res
              ∙ smaller-below x res)
            (score_each-Ranked n res res),
        length-score_each n res res,
        rois_of-score_each n res res,
      )

  shrink_each-more :
      (k mu : F) (v w : Input F) (pop : List (Input F))
      → (length (shrink_each k mu (v ∷ w ∷ pop)) == 1) ≡ false
  unfolding shrink_each
  shrink_each-more k mu v w pop = ground arith

  -- Shrinking two wallets or more keeps them in their order, pulls each ROI to `mean_roi` by the weight of
  -- its sample against the prior, 1 for one that is not positive, and scores each wallet by the number of
  -- those whose shrunk ROI is strictly smaller, in percent of the others. When the arithmetic of the scores does
  -- not go down as the rank goes up, a wallet with a larger shrunk ROI than another has more wallets below
  -- it and no smaller a score, so that the best are scored highest.
  pub shrink-Ranked :
      IsOrdered F
      → (v w : Input F) (pop : List (Input F)) (k : F) → IsRising (length (v ∷ w ∷ pop))
      → let res = shrink reals (v ∷ w ∷ pop) k in
        (wallets_of res ≡ inputs_of (v ∷ w ∷ pop))
        × (map (λ (r : Result F). r.shrunk_roi) res
            ≡ map (pulled (if k ≤? nought then one else k) (mean_roi (v ∷ w ∷ pop))) (v ∷ w ∷ pop))
        × All (Ranked (length (v ∷ w ∷ pop)) res) res
        × All (λ a. All (InOrder res a) res) res
  unfolding shrink rois_of
  shrink-Ranked o v w pop k rising =
      let prior = if k ≤? nought then one else k in
      let mu = mean_roi (v ∷ w ∷ pop) in
      let each = shrink_each prior mu (v ∷ w ∷ pop) in
      let res = assign_scores reals each in
      let n = length (v ∷ w ∷ pop) in
      let (kept, by_rank, same, rois) =
        assign_scores-Ranked each (shrink_each-more prior mu v w pop) in
      let size = length-shrink_each prior mu (v ∷ w ∷ pop) in
      let ranked : All (Ranked n res) res = subst (λ m. All (Ranked m res) res) size by_rank in
      (
        kept ∙ wallets_of-shrink_each prior mu (v ∷ w ∷ pop),
        rois ∙ rois_of-shrink_each prior mu (v ∷ w ∷ pop),
        ranked,
        All-Among (λ a. All (InOrder res a) res) res
            (λ a i.
              All-Among (InOrder res a) res
                (λ b j. Ranked-InOrder o n res a b rising (same ∙ size) ranked i j)),
      )
