-- ===== src/Notifier/Dispatch/Tests.antt =====
-- One worker and room for one job: the worker takes the first job, the second is buffered, the third is
-- dropped, and so is one after the drain. The jobs are numbers.
use lobster_roll.Prelude.{ℕ, ◌+◌, ◌≡◌, refl, true, List, [], ◌∷◌, ◌==◌, length, arith}
use lobster_roll.Notifier.Dispatch.{Pool, new_pool, Action, submits, turns, drains, drain, run}
use lobster_roll.Notifier.Dispatch.Counts.{submitted, counted}
use lobster_roll.Notifier.Dispatch.Sweeps.{rounds}
use lobster_roll.Notifier.Dispatch.Drained.{all_gone, drain-done}

abbrev acts : List (Action ℕ)
acts = turns 0 ∷ submits 1 ∷ submits 2 ∷ submits 3 ∷ []

abbrev pool : Pool ℕ
pool = run (new_pool 1 1) acts

drained_run :
    (pool.dropped ≡ 3 ∷ [])
    × ((run pool (drains ∷ submits 4 ∷ turns 0 ∷ turns 0 ∷ turns 0 ∷ [])).done ≡ 2 ∷ 1 ∷ [])
    × ((run pool (drains ∷ submits 4 ∷ [])).dropped ≡ 4 ∷ 3 ∷ [])
unfolding run new_pool
drained_run = (refl, refl, refl)

drain-done_example :
    (all_gone (run (drain pool) (rounds 5 (length pool.workers))).workers ≡ true)
    × (counted (λ n. n == 2) (run (drain pool) (rounds 5 (length pool.workers))).done
          + counted (λ n. n == 2) pool.dropped
        ≡ counted (λ n. n == 2) (submitted acts))
unfolding run new_pool
drain-done_example = drain-done (λ n. n == 2) 1 1 acts 5 (omega arith)
