-- ===== src/Notifier/Dispatch/Sweeps.antt =====
-- Turns of all the workers of a pool, in order.
use lobster_roll.Prelude.{ℕ, suc, zero, ◌≡◌, refl, ap, sym, ◌∙◌, Bool, List, [], ◌∷◌, ◌++◌, length}
use lobster_roll.Notifier.Dispatch.{
  Worker, Pool, advance, advance_at, turn, Action, turns, step, run,
}
use lobster_roll.Notifier.Dispatch.Counts.{submitted}

append_one {ℓ} : {A : Type ℓ} (v : A) (pre ws : List A) → (pre ++ v ∷ []) ++ ws ≡ pre ++ v ∷ ws
append_one v [] ws = refl
append_one v (q ∷ pre) ws = ap (λ l. q ∷ l) (append_one v pre ws)

length-append_one {ℓ} :
    {A : Type ℓ} (v : A) (pre : List A) → length (pre ++ v ∷ []) ≡ suc (length pre)
length-append_one v [] = refl
length-append_one v (q ∷ pre) = ap suc (length-append_one v pre)

module _ {ℓ} {J : Type ℓ} where
  -- Each worker has a turn, one after the other.
  unfoldable pub sweep_workers :
      Bool → List J → List J → List (Worker J) → List (Worker J) × List J × List J
  unfolding advance
  sweep_workers closed jobs done [] = ([], jobs, done)
  sweep_workers closed jobs done (w ∷ ws) =
      let (v, fs, gs) = advance closed jobs done w in
      let (vs, hs, ds) = sweep_workers closed fs gs ws in (v ∷ vs, hs, ds)

  -- The pool with other workers and jobs.
  abbrev pub moved : Pool J → List (Worker J) × List J × List J → Pool J
  moved p r = record p { workers = r.0; jobs = r.1; done = r.2 }

  unfoldable pub turns_from : ℕ → ℕ → List (Action J)
  turns_from i zero = []
  turns_from i (suc n) = turns i ∷ turns_from (suc i) n

  advance_at-append :
      (closed : Bool) (jobs done : List J) (pre : List (Worker J)) (w : Worker J)
      (ws : List (Worker J))
      → advance_at (length pre) closed jobs done (pre ++ w ∷ ws) ≡ (
        pre ++ (advance closed jobs done w).0 ∷ ws,
        (advance closed jobs done w).1,
        (advance closed jobs done w).2,
      )
  unfolding advance_at
  advance_at-append closed jobs done [] w ws = refl
  advance_at-append closed jobs done (q ∷ pre) w ws =
      ap (λ (r : List (Worker J) × List J × List J). (q ∷ r.0, r.1, r.2))
        (advance_at-append closed jobs done pre w ws)

  -- Turns of the workers in order are a sweep.
  pub run-turns_from :
      (p : Pool J) (jobs done : List J) (pre ws : List (Worker J))
      → run (moved p (pre ++ ws, jobs, done)) (turns_from (length pre) (length ws))
        ≡ moved p (
          pre ++ (sweep_workers p.closed jobs done ws).0,
          (sweep_workers p.closed jobs done ws).1,
          (sweep_workers p.closed jobs done ws).2,
        )
  unfolding run step turn sweep_workers turns_from
  run-turns_from p jobs done pre [] = refl
  run-turns_from p jobs done pre (w ∷ ws) =
      let (v, fs, gs) = advance p.closed jobs done w in
      let swept = sweep_workers p.closed fs gs ws in
      ap (λ r. run (moved p r) (turns_from (suc (length pre)) (length ws)))
        (advance_at-append p.closed jobs done pre w ws)
      ∙ ap (λ l. run (moved p (l, fs, gs)) (turns_from (suc (length pre)) (length ws)))
          (sym (append_one v pre ws))
      ∙ ap (λ n. run (moved p ((pre ++ v ∷ []) ++ ws, fs, gs)) (turns_from n (length ws)))
          (sym (length-append_one v pre))
      ∙ run-turns_from p fs gs (pre ++ v ∷ []) ws
      ∙ ap (λ l. moved p (l, swept.1, swept.2)) (append_one v pre swept.0)

  length-sweep_workers :
      (closed : Bool) (jobs done : List J) (ws : List (Worker J))
      → length (sweep_workers closed jobs done ws).0 ≡ length ws
  unfolding sweep_workers
  length-sweep_workers closed jobs done [] = refl
  length-sweep_workers closed jobs done (w ∷ ws) =
      let (v, fs, gs) = advance closed jobs done w in ap suc (length-sweep_workers closed fs gs ws)

  pub run-append :
      (p : Pool J) (acts more : List (Action J)) → run p (acts ++ more) ≡ run (run p acts) more
  unfolding run
  run-append p [] more = refl
  run-append p (a ∷ acts) more = run-append (step p a) acts more

  -- So many turns of all the workers.
  unfoldable pub rounds : ℕ → ℕ → List (Action J)
  unfolding turns_from
  rounds zero n = []
  rounds (suc k) n = turns_from 0 n ++ rounds k n

  submitted-turns_from :
      (i n : ℕ) (acts : List (Action J)) → submitted (turns_from i n ++ acts) ≡ submitted acts
  unfolding submitted turns_from
  submitted-turns_from i zero acts = refl
  submitted-turns_from i (suc n) acts = submitted-turns_from (suc i) n acts

  pub submitted-rounds : (k n : ℕ) → submitted (rounds k n) ≡ []
  unfolding rounds submitted
  submitted-rounds zero n = refl
  submitted-rounds (suc k) n = submitted-turns_from 0 n (rounds k n) ∙ submitted-rounds k n

  -- A turn of each worker.
  pub run-turns :
      (p : Pool J)
      → run p (turns_from 0 (length p.workers))
        ≡ moved p (sweep_workers p.closed p.jobs p.done p.workers)
  run-turns p = run-turns_from p p.jobs p.done [] p.workers

  pub length-run-turns :
      (p : Pool J) → length (run p (turns_from 0 (length p.workers))).workers ≡ length p.workers
  length-run-turns p =
      ap (λ q. length q.workers) (run-turns p)
      ∙ length-sweep_workers p.closed p.jobs p.done p.workers
