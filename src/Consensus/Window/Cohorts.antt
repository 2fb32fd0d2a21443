-- ===== src/Consensus/Window/Cohorts.antt =====
-- The cohort that the window reports is the set of wallets with a trade in the window.
use lobster_roll.Prelude.{
  ℕ, ◌≡◌, refl, ◌∙◌, Bool, ◌&&◌, ◌||◌, List, [], ◌∷◌, GoString, ◌≟◌, bytes_eq, bytes_lt, keep, has,
  has-sort_by, Distinct, sort_by-Distinct, sort_by-IsSorted, IsSorted, bytes_lt-IsWeakOrder,
  beq_of_eq, eq_of_beq, arith,
}
use lobster_roll.Float.{Float}
use lobster_roll.Consensus.Window.{
  Event, in_cohort, any_event, add_to_group, group_by_wallet, wallets_of, cohort_of,
}

module _ {ℓ} {F : Type ℓ} where
  -- Some event of the cohort is by the wallet.
  abbrev pub traded_by : GoString → GoString → ℕ → GoString → List (Event F) → Bool
  traded_by token side cutoff w = any_event (λ e. in_cohort token side cutoff e && e.wallet ≟ w)

module _ {ℓ} {F : Type ℓ} ⦃d : Float F⦄ where
  has-add_to_group :
      (a w : GoString) (u : F) (gs : List (GoString × F))
      → has a (wallets_of (add_to_group w u gs)) ≡ (w ≟ a || has a (wallets_of gs))
  unfolding wallets_of add_to_group has
  has-add_to_group a w u [] = refl
  has-add_to_group a w u ((v, s) ∷ gs) = ground (arith, has-add_to_group a w u gs, eq_of_beq v w)

  add_to_group-Distinct :
      (w : GoString) (u : F) (gs : List (GoString × F))
      → Distinct (wallets_of gs)
      → Distinct (wallets_of (add_to_group w u gs))
  unfolding wallets_of add_to_group has
  add_to_group-Distinct w u [] h = (refl, tt)
  add_to_group-Distinct w u ((v, s) ∷ gs) h =
      ground (
        arith,
        has-add_to_group v w u gs,
        add_to_group-Distinct w u gs,
        eq_of_beq w v,
        beq_of_eq v w,
      )

  group_by_wallet-Distinct : (es : List (Event F)) → Distinct (wallets_of (group_by_wallet es))
  unfolding group_by_wallet wallets_of
  group_by_wallet-Distinct [] = tt
  group_by_wallet-Distinct (e ∷ es) =
      add_to_group-Distinct e.wallet e.usdc (group_by_wallet es) (group_by_wallet-Distinct es)

  has-group_by_wallet :
      (p : Event F → Bool) (a : GoString) (es : List (Event F))
      → has a (wallets_of (group_by_wallet (keep p es))) ≡ any_event (λ e. p e && e.wallet ≟ a) es
  unfolding group_by_wallet wallets_of any_event keep has
  has-group_by_wallet p a [] = refl
  has-group_by_wallet p a (e ∷ es) = ground (
    arith,
    has-add_to_group a e.wallet e.usdc (group_by_wallet (keep p es)),
    has-group_by_wallet p a es,
  )

  -- The cohort's wallets are exactly those with a trade of the token and side at or after the
  -- cutoff, each stands in it once, and they are in the order of strings.
  pub cohort_of-wallets :
      (token side : GoString) (cutoff : ℕ) (es : List (Event F)) (w : GoString)
      → let ws = (cohort_of token side cutoff es).wallets in
        (has w ws ≡ traded_by token side cutoff w es) × Distinct ws × IsSorted bytes_lt ws
  unfolding cohort_of
  cohort_of-wallets token side cutoff es w =
      let ws = wallets_of (group_by_wallet (keep (in_cohort token side cutoff) es)) in
      (
        has-sort_by bytes_lt w ws ∙ has-group_by_wallet (in_cohort token side cutoff) w es,
        sort_by-Distinct bytes_lt ws
            (group_by_wallet-Distinct (keep (in_cohort token side cutoff) es)),
        sort_by-IsSorted bytes_lt-IsWeakOrder ws,
      )
