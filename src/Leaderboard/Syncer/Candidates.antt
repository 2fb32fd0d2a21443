-- ===== src/Leaderboard/Syncer/Candidates.antt =====
-- The pool of candidates.
use mathlib.Core.Path.{subst}
use lobster_roll.Prelude.{
  ℕ, zero, suc, ◌≤◌, ◌≡◌, refl, sym, ap, ◌∙◌, ◌⊎◌, inl, inr, Bool, true, false, not, List, [], ◌∷◌,
  ◌++◌, Option, none, some, GoString, ◌≟◌, bytes_eq, has, Distinct, length, take, ltb, Bool-cases,
  if_cases, if◌then◌else◌, eq_of_beq, beq_of_eq, arith, ◌||◌,
}
use lobster_roll.Float.{Float}
use lobster_roll.Leaderboard.Selection.{Candidate}
use lobster_roll.Leaderboard.Syncer.{
  StatsConfig, Entry, Pool, add_window, add_windows, default_candidate_windows, candidate_windows,
  enter_entry, enter_entries, enter_window, enter_windows, candidates_of, candidate_pool,
}

has-append : (w v : GoString) (xs : List GoString) → has w (xs ++ v ∷ []) ≡ (has w xs || v ≟ w)
unfolding has
has-append w v [] = ground arith
has-append w v (x ∷ xs) = ground (arith, has-append w v xs)

append-Distinct :
    (w : GoString) (xs : List GoString) → has w xs ≡ false → Distinct xs → Distinct (xs ++ w ∷ [])
unfolding has
append-Distinct w [] h d = (refl, tt)
append-Distinct w (x ∷ xs) h (n, d) =
    ground (arith, append-Distinct w xs, has-append x w xs, eq_of_beq w x, beq_of_eq x w)

add_windows-Distinct : (ws out : List GoString) → Distinct out → Distinct (add_windows out ws)
unfolding add_windows add_window
add_windows-Distinct [] out d = d
add_windows-Distinct (w ∷ ws) out d = add_windows-Distinct ws (add_window out w) (
    if_cases Distinct (not (w ≟ [])) _ _
      (λ _. if_cases Distinct (has w out) _ _ (λ _. d) (λ n. append-Distinct w out n d)) (λ _. d))

module _ {ℓ} {F : Type ℓ} where
  enter_entries-Distinct :
      (w : GoString) (es : List (Entry F)) (p : Pool F)
      → Distinct p.order
      → Distinct (enter_entries w p es).order
  unfolding enter_entries enter_entry
  enter_entries-Distinct w [] p d = d
  enter_entries-Distinct w (e ∷ es) p d = enter_entries-Distinct w es (enter_entry w p e) (
      if_cases Distinct (has e.wallet p.order) _ _ (λ _. d)
        (λ n. append-Distinct e.wallet p.order n d))

  enter_window-Distinct :
      (w : GoString) (o : Option (List (Entry F))) (p : Pool F)
      → Distinct p.order
      → Distinct (enter_window w p o).order
  unfolding enter_window
  enter_window-Distinct w none p d = d
  enter_window-Distinct w (some es) p d = enter_entries-Distinct w es (record p { any_ok = true }) d

  enter_windows-Distinct :
      (fetch : GoString → Option (List (Entry F))) (ws : List GoString) (p : Pool F)
      → Distinct p.order
      → Distinct (enter_windows fetch p ws).order
  unfolding enter_windows
  enter_windows-Distinct fetch [] p d = d
  enter_windows-Distinct fetch (w ∷ ws) p d =
      enter_windows-Distinct fetch ws (enter_window w p (fetch w))
        (enter_window-Distinct w (fetch w) p d)

  -- The wallet is on the page.
  unfoldable pub on_page : GoString → List (Entry F) → Bool
  on_page v [] = false
  on_page v (e ∷ es) = e.wallet ≟ v || on_page v es

  -- The wallet is on a page of one of the windows.
  unfoldable pub on_pages : (GoString → Option (List (Entry F))) → GoString → List GoString → Bool
  on_pages fetch v [] = false
  on_pages fetch v (w ∷ ws) = elim (fetch w) [
    | none ↦ on_pages fetch v ws
    | some es ↦ on_page v es || on_pages fetch v ws
  ]

  has-enter_entry :
      (v w : GoString) (p : Pool F) (e : Entry F)
      → has v (enter_entry w p e).order ≡ (has v p.order || e.wallet ≟ v)
  unfolding enter_entry
  has-enter_entry v w p e = ground (arith, has-append v e.wallet p.order, eq_of_beq e.wallet v)

  has-enter_entries :
      (v w : GoString) (es : List (Entry F)) (p : Pool F)
      → has v (enter_entries w p es).order ≡ (has v p.order || on_page v es)
  unfolding enter_entries on_page
  has-enter_entries v w [] p = ground arith
  has-enter_entries v w (e ∷ es) p =
      ground (arith, has-enter_entries v w es (enter_entry w p e), has-enter_entry v w p e)

  has-enter_window :
      (v w : GoString) (o : Option (List (Entry F))) (p : Pool F)
      → has v (enter_window w p o).order
        ≡ (has v p.order || elim o [ none ↦ false | some es ↦ on_page v es ])
  unfolding enter_window
  has-enter_window v w none p = ground arith
  has-enter_window v w (some es) p = has-enter_entries v w es (record p { any_ok = true })

  has-enter_windows :
      (fetch : GoString → Option (List (Entry F))) (v : GoString) (ws : List GoString) (p : Pool F)
      → has v (enter_windows fetch p ws).order ≡ (has v p.order || on_pages fetch v ws)
  unfolding enter_windows on_pages
  has-enter_windows fetch v [] p = ground arith
  has-enter_windows fetch v (w ∷ ws) p = ground (
    arith,
    has-enter_windows fetch v ws (enter_window w p (fetch w)),
    has-enter_window v w (fetch w) p,
  )

  -- Whether a page was fetched, for one of the windows.
  unfoldable pub answers : (GoString → Option (List (Entry F))) → List GoString → Bool
  answers fetch [] = false
  answers fetch (w ∷ ws) = elim (fetch w) [ none ↦ answers fetch ws | some es ↦ true ]

  enter_entries-any_ok :
      (w : GoString) (es : List (Entry F)) (p : Pool F) → (enter_entries w p es).any_ok ≡ p.any_ok
  unfolding enter_entries enter_entry
  enter_entries-any_ok w [] p = refl
  enter_entries-any_ok w (e ∷ es) p = enter_entries-any_ok w es (enter_entry w p e)

  enter_window-any_ok :
      (w : GoString) (o : Option (List (Entry F))) (p : Pool F)
      → (enter_window w p o).any_ok ≡ elim o [ none ↦ p.any_ok | some es ↦ true ]
  unfolding enter_window
  enter_window-any_ok w none p = refl
  enter_window-any_ok w (some es) p = enter_entries-any_ok w es (record p { any_ok = true })

  enter_windows-any_ok :
      (fetch : GoString → Option (List (Entry F))) (ws : List GoString) (p : Pool F)
      → (enter_windows fetch p ws).any_ok ≡ (p.any_ok || answers fetch ws)
  unfolding enter_windows answers
  enter_windows-any_ok fetch [] p = ground arith
  enter_windows-any_ok fetch (w ∷ ws) p = ground (
    arith,
    enter_windows-any_ok fetch ws (enter_window w p (fetch w)),
    enter_window-any_ok w (fetch w) p,
  )

  unfoldable pub wallets_of : List (Candidate F) → List GoString
  wallets_of [] = []
  wallets_of (c ∷ cs) = c.wallet ∷ wallets_of cs

  has-take :
      (w : GoString) (n : ℕ) (cs : List (Candidate F))
      → has w (wallets_of cs) ≡ false
      → has w (wallets_of (take n cs)) ≡ false
  unfolding wallets_of has
  has-take w zero cs h = refl
  has-take w (suc n) [] h = refl
  has-take w (suc n) (c ∷ cs) h = ground (arith, has-take w n cs)

  take-Distinct :
      (n : ℕ) (cs : List (Candidate F))
      → Distinct (wallets_of cs)
      → Distinct (wallets_of (take n cs))
  unfolding wallets_of
  take-Distinct zero cs d = tt
  take-Distinct (suc n) [] d = tt
  take-Distinct (suc n) (c ∷ cs) (h, d) = (has-take c.wallet n cs h, take-Distinct n cs d)

  length-take-le : (n : ℕ) (cs : List (Candidate F)) → length (take n cs) ≤ n
  length-take-le zero cs = omega arith
  length-take-le (suc n) [] = omega arith
  length-take-le (suc n) (c ∷ cs) = omega (arith, length-take-le n cs)

  take-all : (n : ℕ) (cs : List (Candidate F)) → length cs ≤ n → take n cs ≡ cs
  take-all zero [] h = refl
  take-all zero (c ∷ cs) h = absurd (omega arith)
  take-all (suc n) [] h = refl
  take-all (suc n) (c ∷ cs) h = ap (λ xs. c ∷ xs) (take-all n cs (omega arith))

module _ {ℓ} {F : Type ℓ} ⦃d : Float F⦄ where
  wallets_of-candidates_of :
      (profits : List (GoString × F)) (ws : List GoString)
      → wallets_of (candidates_of profits ws) ≡ ws
  unfolding wallets_of candidates_of
  wallets_of-candidates_of profits [] = refl
  wallets_of-candidates_of profits (w ∷ ws) =
      ap (λ xs. w ∷ xs) (wallets_of-candidates_of profits ws)

  -- There is no pool exactly if no window of the leaderboard could be fetched. Otherwise it is the first
  -- candidates, up to the configured number, of a list that has every wallet of every fetched page once,
  -- and no other wallet.
  pub candidate_pool-Distinct :
      (cfg : StatsConfig F) (fetch : GoString → Option (List (Entry F)))
      → ((answers fetch (candidate_windows cfg) ≡ false) × (candidate_pool cfg fetch ≡ none))
        ⊎ ((cs : List (Candidate F)) × (answers fetch (candidate_windows cfg) ≡ true)
            × (candidate_pool cfg fetch ≡ some (take cfg.max_candidates cs))
            × Distinct (wallets_of cs)
            × ((v : GoString) → has v (wallets_of cs) ≡ on_pages fetch v (candidate_windows cfg))
            × Distinct (wallets_of (take cfg.max_candidates cs))
            × (length (take cfg.max_candidates cs) ≤ cfg.max_candidates))
  unfolding candidate_pool has
  candidate_pool-Distinct cfg fetch =
      let start : Pool F = record { order = []; profit30 = []; any_ok = false } in
      let ws = candidate_windows cfg in
      let p = enter_windows fetch start ws in
      let n = cfg.max_candidates in
      let cs = candidates_of p.profit30 p.order in
      let ok = enter_windows-any_ok fetch ws start in
      let named = wallets_of-candidates_of p.profit30 p.order in
      let distinct : Distinct (wallets_of cs) =
        subst Distinct (sym named) (enter_windows-Distinct fetch ws start tt) in
      let cut : (if ltb n (length cs) then take n cs else cs) ≡ take n cs =
        if_cases (λ x. x ≡ take n cs) (ltb n (length cs)) _ _ (λ _. refl)
          (λ h. sym (take-all n cs (ground (arith, h)))) in
      elim (Bool-cases p.any_ok) [
        | inl e ↦ inr (
          cs,
          ground (arith, ok, e),
          rw e (ap some cut),
          distinct,
          λ v. ap (has v) named ∙ has-enter_windows fetch v ws start,
          take-Distinct n cs distinct,
          length-take-le n cs,
        )
        | inr e ↦ inl (ground (arith, ok, e), rw e refl)
      ]

-- The windows that are fetched are different.
pub candidate_windows-Distinct {ℓ} :
    {F : Type ℓ} (cfg : StatsConfig F) → Distinct (candidate_windows cfg)
unfolding candidate_windows
candidate_windows-Distinct cfg =
    add_windows-Distinct (default_candidate_windows ++ cfg.window ∷ []) [] tt
