-- ===== src/Leaderboard/History/Totals.antt =====
-- The counts and the return series of a wallet.
use lobster_roll.Prelude.{
  ℕ, ◌+◌, ◌≤◌, ◌≡◌, refl, sym, ◌∙◌, ap, Bool, List, [], ◌∷◌, ◌++◌, GoString, length, keep, map,
  sort_by, IsSorted, IsWeakOrder, sort_by-IsSorted, length-sort_by, length-keep-le, if◌then◌else◌,
  if_cases, Bool-cases, inl, inr, arith,
}
use mathlib.Core.List.{append-nil, append_assoc}
use lobster_roll.Float.{Float, ◌<?◌, ◌⊘◌, nought}
use lobster_roll.Leaderboard.History.{
  Activity, Market, Stats, resolved_of, older, tally, tally_all, ratios, no_stats, enter_all,
  compute,
}

module _ {ℓ} {F : Type ℓ} ⦃d : Float F⦄ where
  -- A market with a captured cost, and its return.
  unfoldable pub has_cost : Market F → Bool
  has_cost m = nought <? m.cost

  unfoldable pub return_of : Market F → F
  return_of m = m.net ⊘ m.cost

  unfoldable pub history : List (Activity F) → List (Market F)
  history acts = sort_by older (resolved_of (enter_all [] acts))

  older-IsWeakOrder : IsWeakOrder (older {F = F})
  unfolding older
  older-IsWeakOrder = record {
    asymm = λ x y p. ground arith;
    not_trans = λ x y z p q. ground arith;
  }

  length-resolved_of : (ms : List (GoString × Market F)) → length (resolved_of ms) ≤ length ms
  unfolding resolved_of
  length-resolved_of [] = omega arith
  length-resolved_of ((id, m) ∷ ms) = ground (arith, length-resolved_of ms)

  tally_all-resolved :
      (ms : List (Market F)) (s : Stats F) (wins : ℕ)
      → ((tally_all (s, wins) ms).0.resolved_markets ≡ s.resolved_markets + length ms)
        × ((tally_all (s, wins) ms).1 ≤ wins + length ms)
        × ((tally_all (s, wins) ms).0.traded_markets ≡ s.traded_markets)
  unfolding tally_all tally
  tally_all-resolved [] s wins = ground arith
  tally_all-resolved (m ∷ ms) s wins =
      let (t, won) = tally (s, wins) m in ground (arith, tally_all-resolved ms t won)

  tally-returns :
      (m : Market F) (s : Stats F) (wins : ℕ) (rest : List F)
      → (tally (s, wins) m).0.returns ++ rest
        ≡ s.returns ++ (if has_cost m then return_of m ∷ rest else rest)
  unfolding tally has_cost return_of
  tally-returns m s wins rest = elim (Bool-cases (nought <? m.cost)) [
    | inl e ↦ rw e (append_assoc s.returns (m.net ⊘ m.cost ∷ []) rest)
    | inr e ↦ rw e refl
  ]

  map_kept :
      (m : Market F) (ms : List (Market F))
      → (if has_cost m
          then return_of m ∷ map return_of (keep has_cost ms)
          else map return_of (keep has_cost ms))
        ≡ map return_of (keep has_cost (m ∷ ms))
  unfolding keep
  map_kept m ms =
      if_cases (λ (xs : List F). xs ≡ map return_of (keep has_cost (m ∷ ms))) (has_cost m) _ _
        (λ e. rw e refl) (λ e. rw e refl)

  tally_all-returns :
      (ms : List (Market F)) (s : Stats F) (wins : ℕ)
      → (tally_all (s, wins) ms).0.returns ≡ s.returns ++ map return_of (keep has_cost ms)
  unfolding tally_all keep
  tally_all-returns [] s wins = sym (append-nil s.returns)
  tally_all-returns (m ∷ ms) s wins =
      let (t, won) = tally (s, wins) m in
      tally_all-returns ms t won
      ∙ tally-returns m s wins (map return_of (keep has_cost ms))
      ∙ ap (λ xs. s.returns ++ xs) (map_kept m ms)

  length-map : (f : Market F → F) (ms : List (Market F)) → length (map f ms) ≡ length ms
  length-map f [] = refl
  length-map f (m ∷ ms) = omega (arith, length-map f ms)

  -- The statistics of a wallet count each market that its activity touches at most once: no more
  -- markets are resolved than traded, and no more returns are reported than markets are resolved.
  pub compute-counts :
      (acts : List (Activity F))
      → ((compute acts).traded_markets ≡ length (enter_all [] acts))
        × ((compute acts).resolved_markets ≡ length (resolved_of (enter_all [] acts)))
        × ((compute acts).resolved_markets ≤ (compute acts).traded_markets)
        × (length (compute acts).returns ≤ (compute acts).resolved_markets)
  unfolding compute ratios no_stats history
  compute-counts acts =
      let ms = enter_all [] acts in
      let start = no_stats (length ms) in
      let (r, w, t) = tally_all-resolved (history acts) start 0 in
      let count : (compute acts).resolved_markets ≡ length (resolved_of ms) =
        r ∙ omega (arith, length-sort_by older (resolved_of ms)) in
      let shown : length (compute acts).returns ≤ length (history acts) =
        rw (tally_all-returns (history acts) start 0) (
          omega (
            arith,
            length-map return_of (keep has_cost (history acts)),
            length-keep-le has_cost (history acts),
          )) in
      (
        t,
        count,
        omega (arith, count, t, length-resolved_of ms),
        omega (arith, shown, count, length-sort_by older (resolved_of ms)),
      )

  -- The returns are those of the resolved markets with a captured cost, each the net cash by the cost,
  -- from the market whose last activity is the oldest to the newest.
  pub compute-returns :
      (acts : List (Activity F))
      → ((compute acts).returns ≡ map return_of (keep has_cost (history acts)))
        × IsSorted older (history acts)
  unfolding compute ratios no_stats history
  compute-returns acts = (
    tally_all-returns (history acts) (no_stats (length (enter_all [] acts))) 0,
    sort_by-IsSorted older-IsWeakOrder (resolved_of (enter_all [] acts)),
  )
