-- ===== src/Leaderboard/Syncer/Rows.antt =====
-- What a refresh does to the columns of a wallet's row that are read while it runs.
use lobster_roll.Prelude.{
  ℕ, ◌≡◌, refl, sym, ap, ◌∙◌, inl, inr, Bool, false, not, List, [], ◌∷◌, Option, none, some,
  GoString, ◌≟◌, bytes_eq, lookup, insert, lookup-insert, Bool-cases, Option-cases, if_cases,
  if◌then◌else◌, eq_of_beq, arith, ◌||◌, ◌&&◌,
}
use lobster_roll.Float.{Float, nought}
use lobster_roll.Leaderboard.Selection.{Candidate, Stats}
use lobster_roll.Leaderboard.Records.{
  StatsRecord, with_kept, upsert_stats, revalued, set_wallet_clv,
}
use lobster_roll.Leaderboard.Skill.{Reals}
use lobster_roll.Leaderboard.Syncer.Crawl.{Answers, Clv, record_of, stats_of, crawl_all}
use lobster_roll.Leaderboard.Syncer.{returned, clear_stale}

module _ {ℓ} {F : Type ℓ} ⦃d : Float F⦄ where
  -- The columns that the traders read and that a crawl does not own.
  abbrev pub kept_of : StatsRecord F → F × ℕ × ℕ
  kept_of r = (r.avg_clv, r.clv_n, r.skill_score)

  upsert_stats-kept :
      (r old : StatsRecord F) (rows : List (GoString × StatsRecord F)) (w : GoString)
      → lookup w rows ≡ some old
      → (new : StatsRecord F) × (lookup w (upsert_stats r rows) ≡ some new)
        × (kept_of new ≡ kept_of old)
  unfolding upsert_stats with_kept
  upsert_stats-kept r old rows w l = elim (Bool-cases (r.wallet ≟ w)) [
    | inl e ↦ (
      with_kept r (some old),
      lookup-insert r.wallet w (with_kept r (lookup r.wallet rows)) rows
          ∙ rw e (
              ap (λ o. some (with_kept r o))
                (ap (λ k. lookup k rows) (eq_of_beq r.wallet w e) ∙ l)),
      refl,
    )
    | inr e ↦
        (old, lookup-insert r.wallet w (with_kept r (lookup r.wallet rows)) rows ∙ rw e l, refl)
  ]

  -- A row without closing-line values.
  unfoldable pub cleared : Option (StatsRecord F) → Option (StatsRecord F)
  cleared none = none
  cleared (some r) = some (record r { avg_clv = nought; clv_n = 0 })

  lookup-revalued :
      (v w : GoString) (rows : List (GoString × StatsRecord F)) (o : Option (StatsRecord F))
      → lookup v rows ≡ o
      → lookup w (revalued v nought 0 o rows)
        ≡ (if v ≟ w then cleared (lookup w rows) else lookup w rows)
  unfolding revalued cleared
  lookup-revalued v w rows none l = elim (Bool-cases (v ≟ w)) [
    | inl e ↦
        let missing : lookup w rows ≡ none = sym (ap (λ k. lookup k rows) (eq_of_beq v w e)) ∙ l in
        rw (e, missing) refl
    | inr e ↦ rw e refl
  ]
  lookup-revalued v w rows (some r) l =
      lookup-insert v w (record r { avg_clv = nought; clv_n = 0 }) rows
      ∙ elim (Bool-cases (v ≟ w)) [
        | inl e ↦
            let found : lookup w rows ≡ some r =
              sym (ap (λ k. lookup k rows) (eq_of_beq v w e)) ∙ l in
            rw (e, found) refl
        | inr e ↦ rw e refl
      ]

  lookup-set_wallet_clv :
      (v w : GoString) (rows : List (GoString × StatsRecord F))
      → lookup w (set_wallet_clv v nought 0 rows)
        ≡ (if v ≟ w then cleared (lookup w rows) else lookup w rows)
  unfolding set_wallet_clv
  lookup-set_wallet_clv v w rows = lookup-revalued v w rows (lookup v rows) refl

  -- The wallet's statistics were computed in this refresh.
  unfoldable pub listed : GoString → List (GoString × Stats F) → Bool
  listed w [] = false
  listed w ((v, st) ∷ rest) = v ≟ w || listed w rest

  cleared-cleared : (o : Option (StatsRecord F)) → cleared (cleared o) ≡ cleared o
  unfolding cleared
  cleared-cleared none = refl
  cleared-cleared (some r) = refl

  -- After the answer of pricewatch is taken, a wallet of this refresh that the answer leaves out has no
  -- closing-line values in its row any more, if the row can be written, and every other row is as it was.
  pub lookup-clear_stale :
      (written : GoString → Bool) (cs : List (Clv F)) (stats : List (GoString × Stats F))
      (rows : List (GoString × StatsRecord F)) (w : GoString)
      → lookup w (clear_stale written cs stats rows) ≡ (
          if listed w stats && (not (returned w cs) && written w)
          then cleared (lookup w rows)
          else lookup w rows)
  unfolding clear_stale listed
  lookup-clear_stale written cs [] rows w = refl
  lookup-clear_stale written cs ((v, st) ∷ rest) rows w = ground (
    arith,
    lookup-clear_stale written cs rest rows w,
    lookup-clear_stale written cs rest (set_wallet_clv v nought 0 rows) w,
    lookup-set_wallet_clv v w rows,
    cleared-cleared (lookup w rows),
    eq_of_beq v w,
  )

module _ {ℓ} {F : Type ℓ} ⦃d : Float F⦄ (reals : Reals F) where
  -- A crawl never touches the closing-line values and the score of a row that is there, so that none is
  -- seen as zero while a refresh runs, also when the crawl stops on an error.
  pub crawl_all-kept :
      (cs : List (Candidate F)) (a : Answers F) (rows : List (GoString × StatsRecord F))
      (stats : List (GoString × Stats F)) (w : GoString) (old : StatsRecord F)
      → lookup w rows ≡ some old
      → (new : StatsRecord F) × (lookup w (crawl_all reals a rows stats cs).0 ≡ some new)
        × (kept_of new ≡ kept_of old)
  unfolding crawl_all
  crawl_all-kept [] a rows stats w old l = (old, l, refl)
  crawl_all-kept (c ∷ cs) a rows stats w old l = elim (Option-cases (a.activity c.wallet)) [
    | inl e ↦ rw (crawl_all, e) (crawl_all-kept cs a rows stats w old l)
    | inr (acts, e) ↦
        let r = record_of reals a c acts in
        let stats' = insert c.wallet (stats_of reals r) stats in
        let (mid, found, same) = upsert_stats-kept r old rows w l in
        let (new, l', same') = crawl_all-kept cs a (upsert_stats r rows) stats' w mid found in
        rw (crawl_all, e)
          (if_cases
            (λ (x : List (GoString × StatsRecord F) × Option (List (GoString × Stats F))).
              (n : StatsRecord F) × (lookup w x.0 ≡ some n) × (kept_of n ≡ kept_of old))
            (a.upserted c.wallet) (crawl_all reals a (upsert_stats r rows) stats' cs) (rows, none)
            (λ _. (new, l', same' ∙ same)) (λ _. (old, l, refl)))
  ]
