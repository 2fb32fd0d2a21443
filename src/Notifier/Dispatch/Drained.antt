-- ===== src/Notifier/Dispatch/Drained.antt =====
-- A pool that is drained runs every job that it took.
use mathlib.Core.Path.{subst}
use lobster_roll.Prelude.{
  ℕ, suc, zero, ◌+◌, ◌*◌, ◌≤◌, ◌<◌, ◌≡◌, refl, ap, sym, ◌∙◌, Bool, true, false, List, [], ◌∷◌,
  length, arith, Bool-cases, inl, inr, leb, if_cases,
}
use lobster_roll.Notifier.Dispatch.{
  Worker, away, waiting, exited, busy, Pool, new_pool, advance, drain, Action, run,
}
use lobster_roll.Notifier.Dispatch.Counts.{
  submitted, counted, running, all_of, drain-all_of, run-all_of, run-new_pool-all_of,
}
use lobster_roll.Notifier.Dispatch.States.{
  some_gone, none_waits, IsSound, drain-IsSound, run-IsSound, new_pool-IsSound, length-woken,
}
use lobster_roll.Notifier.Dispatch.Sweeps.{
  sweep_workers, moved, turns_from, rounds, run-append, run-turns, length-run-turns,
  submitted-rounds,
}

module _ {ℓ} {J : Type ℓ} where
  unfoldable pub all_gone : List (Worker J) → Bool
  all_gone [] = true
  all_gone (exited ∷ ws) = all_gone ws
  all_gone (away ∷ ws) = false
  all_gone (waiting ∷ ws) = false
  all_gone (busy f ∷ ws) = false

  -- The turns that workers still need for what they run now.
  unfoldable pub weight : List (Worker J) → ℕ
  weight [] = 0
  weight (busy f ∷ ws) = 2 + weight ws
  weight (away ∷ ws) = 1 + weight ws
  weight (waiting ∷ ws) = weight ws
  weight (exited ∷ ws) = weight ws

  weight-le : (ws : List (Worker J)) → weight ws ≤ 2 * length ws
  unfolding weight
  weight-le [] = omega arith
  weight-le (busy f ∷ ws) = omega (arith, weight-le ws)
  weight-le (away ∷ ws) = omega (arith, weight-le ws)
  weight-le (waiting ∷ ws) = omega (arith, weight-le ws)
  weight-le (exited ∷ ws) = omega (arith, weight-le ws)

  all_gone-weight :
      (ws : List (Worker J)) → none_waits ws ≡ true → weight ws ≡ 0 → all_gone ws ≡ true
  unfolding none_waits weight all_gone
  all_gone-weight [] h z = refl
  all_gone-weight (exited ∷ ws) h z = all_gone-weight ws h z
  all_gone-weight (waiting ∷ ws) h z = absurd cc
  all_gone-weight (away ∷ ws) h z = absurd (omega arith)
  all_gone-weight (busy f ∷ ws) h z = absurd (omega arith)

  -- In a closed pool, a turn of each worker brings the end nearer, if a worker has not ended.
  sweep_workers-nearer :
      (jobs done : List J) (ws : List (Worker J))
      → none_waits ws ≡ true
      → (3 * length (sweep_workers true jobs done ws).1 + weight (sweep_workers true jobs done ws).0
          ≤ 3 * length jobs + weight ws)
        × (0 < weight ws
            → 3 * length (sweep_workers true jobs done ws).1
                + weight (sweep_workers true jobs done ws).0
              < 3 * length jobs + weight ws)
  unfolding sweep_workers advance weight none_waits
  sweep_workers-nearer jobs done [] h = (omega arith, λ some_left. omega arith)
  sweep_workers-nearer jobs done (waiting ∷ ws) h = absurd cc
  sweep_workers-nearer jobs done (exited ∷ ws) h = sweep_workers-nearer jobs done ws h
  sweep_workers-nearer jobs done (busy f ∷ ws) h =
      let (le, lt) = sweep_workers-nearer jobs (f ∷ done) ws h in
      (omega (arith, le), λ some_left. omega (arith, le))
  sweep_workers-nearer [] done (away ∷ ws) h =
      let (le, lt) = sweep_workers-nearer [] done ws h in
      (omega (arith, le), λ some_left. omega (arith, le))
  sweep_workers-nearer (f ∷ fs) done (away ∷ ws) h =
      let (le, lt) = sweep_workers-nearer fs done ws h in
      (omega (arith, le), λ some_left. omega (arith, le))

  all_gone-some_gone :
      (ws : List (Worker J)) → 1 ≤ length ws → all_gone ws ≡ true → some_gone ws ≡ true
  unfolding all_gone some_gone
  all_gone-some_gone [] l h = absurd (omega arith)
  all_gone-some_gone (exited ∷ ws) l h = refl
  all_gone-some_gone (away ∷ ws) l h = absurd cc
  all_gone-some_gone (waiting ∷ ws) l h = absurd cc
  all_gone-some_gone (busy f ∷ ws) l h = absurd cc

  abbrev left : Pool J → ℕ
  left p = 3 * length p.jobs + weight p.workers

  -- When no worker has anything left to run, nothing is buffered.
  left-nought : (p : Pool J) → p.closed ≡ true → IsSound p → weight p.workers ≡ 0 → left p ≡ 0
  unfolding IsSound
  left-nought p shut (a, b, c) z =
      let none_left =
        (b (all_gone-some_gone p.workers c (all_gone-weight p.workers (a shut) z))).1 in
      omega (arith, none_left, z)

  run-turns-nearer :
      (p : Pool J) (k : ℕ)
      → p.closed ≡ true
      → IsSound p
      → left p ≤ suc k
      → left (run p (turns_from 0 (length p.workers))) ≤ k
  unfolding IsSound
  run-turns-nearer p k shut (a, b, c) h =
      let (le, lt) = sweep_workers-nearer p.jobs p.done p.workers (a shut) in
      let swept : left (moved p (sweep_workers true p.jobs p.done p.workers)) ≤ k =
        elim (Bool-cases (leb 1 (weight p.workers))) [
          | inl some_left ↦ omega (arith, lt (ground (arith, some_left)), h)
          | inr idle ↦ omega (arith, le, left-nought p shut (a, b, c) (ground (arith, idle)))
        ] in
      subst (λ q. left q ≤ k) (sym (run-turns p))
        (subst (λ closed. left (moved p (sweep_workers closed p.jobs p.done p.workers)) ≤ k)
          (sym shut) swept)

  -- Every worker has ended, nothing is buffered, and these jobs were dropped.
  abbrev Ended : List J → Pool J → Type ℓ
  Ended dropped q = (left q ≡ 0) × IsSound q × (q.closed ≡ true) × (q.dropped ≡ dropped)

  run-rounds-Ended :
      (k : ℕ) (p : Pool J) (dropped : List J)
      → p.closed ≡ true
      → IsSound p
      → p.dropped ≡ dropped
      → left p ≤ k
      → Ended dropped (run p (rounds k (length p.workers)))
  unfolding rounds run
  run-rounds-Ended zero p dropped shut sound same h = (omega (arith, h), sound, shut, same)
  run-rounds-Ended (suc k) p dropped shut sound same h =
      let acts : List (Action J) = turns_from 0 (length p.workers) in
      let q = run p acts in
      subst (Ended dropped)
        (ap (λ n. run q (rounds k n)) (length-run-turns p)
          ∙ sym (run-append p acts (rounds k (length p.workers))))
        (run-rounds-Ended k q dropped (ap (λ r. r.closed) (run-turns p) ∙ shut)
          (run-IsSound p acts sound) (ap (λ r. r.dropped) (run-turns p) ∙ same)
          (run-turns-nearer p k shut sound h))

  weight-running : (test : J → Bool) (ws : List (Worker J)) → weight ws ≡ 0 → running test ws ≡ 0
  unfolding weight running
  weight-running test [] z = refl
  weight-running test (away ∷ ws) z = absurd (omega arith)
  weight-running test (busy f ∷ ws) z = absurd (omega arith)
  weight-running test (waiting ∷ ws) z = weight-running test ws z
  weight-running test (exited ∷ ws) z = weight-running test ws z

  nothing-counted : (test : J → Bool) (fs : List J) → length fs ≡ 0 → counted test fs ≡ 0
  unfolding counted
  nothing-counted test [] z = refl
  nothing-counted test (f ∷ fs) z = absurd (omega arith)

  -- What has ended has run all that it took.
  Ended-all_of :
      (test : J → Bool) (dropped : List J) (q : Pool J)
      → Ended dropped q
      → (all_gone q.workers ≡ true) × (all_of test q ≡ counted test q.done + counted test dropped)
  unfolding all_of IsSound
  Ended-all_of test dropped q (none_left, (a, b, c), shut, same) =
      let idle : weight q.workers ≡ 0 = omega (arith, none_left) in
      (
        all_gone-weight q.workers (a shut) idle,
        omega (
          arith,
          weight-running test q.workers idle,
          nothing-counted test q.jobs (omega (arith, none_left)),
          ap (counted test) same,
        ),
      )

  drain-kept :
      (p : Pool J)
      → ((drain p).closed ≡ true)
        × ((drain p).dropped ≡ p.dropped)
        × (length (drain p).workers ≡ length p.workers)
        × ((drain p).jobs ≡ p.jobs)
  unfolding drain
  drain-kept p =
      if_cases
        (λ (q : Pool J).
          (q.closed ≡ true)
          × (q.dropped ≡ p.dropped)
          × (length q.workers ≡ length p.workers)
          × (q.jobs ≡ p.jobs))
        p.closed _ _ (λ shut. (shut, refl, refl, refl))
        (λ open_. (refl, refl, length-woken p.workers, refl))

-- Whatever happened to a new pool before, a Drain lets every worker end, once each has had three turns
-- for each buffered job and two for each worker; by then every job that was submitted has run, as often
-- as it was submitted, but for those that were dropped before the Drain.
pub drain-done {ℓ} :
    {J : Type ℓ} (test : J → Bool) (workers queue : ℕ) (acts : List (Action J)) (k : ℕ)
    → 3 * length (run (new_pool workers queue) acts).jobs
        + 2 * length (run (new_pool workers queue) acts).workers
      ≤ k
    → (all_gone
          (run
            (drain (run (new_pool workers queue) acts))
            (rounds k (length (run (new_pool workers queue) acts).workers))).workers
        ≡ true)
      × (counted test
              (run
                (drain (run (new_pool workers queue) acts))
                (rounds k (length (run (new_pool workers queue) acts).workers))).done
            + counted test (run (new_pool workers queue) acts).dropped
          ≡ counted test (submitted acts))
drain-done {J} test workers queue acts k enough =
    let p : Pool J = run (new_pool workers queue) acts in
    let n = length p.workers in
    let (shut, same, workers_same, jobs_same) = drain-kept p in
    let ended : Ended p.dropped (run (drain p) (rounds k n)) =
      subst (λ m. Ended p.dropped (run (drain p) (rounds k m))) workers_same
        (run-rounds-Ended k (drain p) p.dropped shut
          (drain-IsSound p
            (run-IsSound (new_pool workers queue) acts (new_pool-IsSound J workers queue)))
          same
          (omega
            (arith, enough, workers_same, ap length jobs_same, weight-le (drain p).workers))) in
    let (gone, counts) = Ended-all_of test p.dropped (run (drain p) (rounds k n)) ended in
    let none_more : counted test (submitted (rounds k n)) ≡ 0 =
      nothing-counted test (submitted (rounds k n)) (ap length (submitted-rounds k n)) in
    (
      gone,
      omega (
        arith,
        counts,
        run-all_of test (drain p) (rounds k n),
        none_more,
        drain-all_of test p,
        run-new_pool-all_of test workers queue acts,
      ),
    )
