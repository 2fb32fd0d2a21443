-- ===== src/Notifier/Dispatch/Counts.antt =====
-- No job of a pool is lost, and none is run twice.
use lobster_roll.Prelude.{
  ℕ, suc, zero, ◌+◌, ◌≡◌, refl, Bool, List, [], ◌∷◌, ◌++◌, ltb, map, replicate, if◌then◌else◌,
  arith,
}
use lobster_roll.Notifier.Dispatch.{
  Worker, away, waiting, exited, busy, Pool, new_pool, hand, drop, enqueue, submit, advance,
  advance_at, turn, woken, drain, Action, submits, turns, drains, step, run,
}

module _ {ℓ} {J : Type ℓ} where
  unfoldable pub submitted : List (Action J) → List J
  submitted [] = []
  submitted (submits f ∷ acts) = f ∷ submitted acts
  submitted (turns i ∷ acts) = submitted acts
  submitted (drains ∷ acts) = submitted acts

  -- How many of the jobs pass the test.
  unfoldable pub counted : (J → Bool) → List J → ℕ
  counted test [] = 0
  counted test (f ∷ fs) = if test f then suc (counted test fs) else counted test fs

  counted-append :
      (test : J → Bool) (fs gs : List J)
      → counted test (fs ++ gs) ≡ counted test fs + counted test gs
  unfolding counted
  counted-append test [] gs = omega arith
  counted-append test (f ∷ fs) gs = ground (arith, counted-append test fs gs)

  -- Of those that are being run.
  unfoldable pub running : (J → Bool) → List (Worker J) → ℕ
  running test [] = 0
  running test (busy f ∷ ws) = if test f then suc (running test ws) else running test ws
  running test (away ∷ ws) = running test ws
  running test (waiting ∷ ws) = running test ws
  running test (exited ∷ ws) = running test ws

  unfoldable pub all_of : (J → Bool) → Pool J → ℕ
  all_of test p =
      counted test p.jobs + running test p.workers + counted test p.done + counted test p.dropped

  running-hand :
      (test : J → Bool) (f : J) (ws : List (Worker J))
      → running test (hand f ws).0
        ≡ (if (hand f ws).1 then counted test (f ∷ []) + running test ws else running test ws)
  unfolding running hand counted
  running-hand test f [] = refl
  running-hand test f (waiting ∷ ws) = ground arith
  running-hand test f (away ∷ ws) = running-hand test f ws
  running-hand test f (exited ∷ ws) = running-hand test f ws
  running-hand test f (busy g ∷ ws) = ground (arith, running-hand test f ws)

  submit-all_of :
      (test : J → Bool) (p : Pool J) (f : J)
      → all_of test (submit p f) ≡ all_of test p + counted test (f ∷ [])
  unfolding all_of submit enqueue drop counted
  submit-all_of test p f =
      ground (arith, running-hand test f p.workers, counted-append test p.jobs (f ∷ []))

  advance_at-all_of :
      (test : J → Bool) (i : ℕ) (closed : Bool) (jobs done : List J) (ws : List (Worker J))
      → counted test (advance_at i closed jobs done ws).1
          + running test (advance_at i closed jobs done ws).0
          + counted test (advance_at i closed jobs done ws).2
        ≡ counted test jobs + running test ws + counted test done
  unfolding running advance_at advance counted
  advance_at-all_of test i closed jobs done [] = refl
  advance_at-all_of test zero closed jobs done (busy f ∷ ws) = ground arith
  advance_at-all_of test zero closed [] done (away ∷ ws) = ground arith
  advance_at-all_of test zero closed (f ∷ fs) done (away ∷ ws) = ground arith
  advance_at-all_of test zero closed jobs done (waiting ∷ ws) = refl
  advance_at-all_of test zero closed jobs done (exited ∷ ws) = refl
  advance_at-all_of test (suc i) closed jobs done (away ∷ ws) =
      advance_at-all_of test i closed jobs done ws
  advance_at-all_of test (suc i) closed jobs done (waiting ∷ ws) =
      advance_at-all_of test i closed jobs done ws
  advance_at-all_of test (suc i) closed jobs done (exited ∷ ws) =
      advance_at-all_of test i closed jobs done ws
  advance_at-all_of test (suc i) closed jobs done (busy f ∷ ws) =
      ground (arith, advance_at-all_of test i closed jobs done ws)

  running-woken :
      (test : J → Bool) (ws : List (Worker J)) → running test (map woken ws) ≡ running test ws
  unfolding running woken
  running-woken test [] = refl
  running-woken test (away ∷ ws) = running-woken test ws
  running-woken test (waiting ∷ ws) = running-woken test ws
  running-woken test (exited ∷ ws) = running-woken test ws
  running-woken test (busy f ∷ ws) = ground (arith, running-woken test ws)

  pub drain-all_of : (test : J → Bool) (p : Pool J) → all_of test (drain p) ≡ all_of test p
  unfolding all_of drain
  drain-all_of test p = ground (arith, running-woken test p.workers)

  step-all_of :
      (test : J → Bool) (p : Pool J) (a : Action J)
      → all_of test (step p a) ≡ all_of test p + counted test (submitted (a ∷ []))
  unfolding step submitted counted turn all_of
  step-all_of test p (submits f) = submit-all_of test p f
  step-all_of test p (turns i) =
      omega (arith, advance_at-all_of test i p.closed p.jobs p.done p.workers)
  step-all_of test p drains = omega (arith, drain-all_of test p)

  pub run-all_of :
      (test : J → Bool) (p : Pool J) (acts : List (Action J))
      → all_of test (run p acts) ≡ all_of test p + counted test (submitted acts)
  unfolding run submitted counted
  run-all_of test p [] = omega arith
  run-all_of test p (submits f ∷ acts) =
      ground (arith, run-all_of test (step p (submits f)) acts, step-all_of test p (submits f))
  run-all_of test p (turns i ∷ acts) =
      ground (arith, run-all_of test (step p (turns i)) acts, step-all_of test p (turns i))
  run-all_of test p (drains ∷ acts) =
      ground (arith, run-all_of test (step p drains) acts, step-all_of test p drains)

  running-away : (test : J → Bool) (n : ℕ) → running test (replicate n away) ≡ 0
  unfolding running
  running-away test zero = refl
  running-away test (suc n) = running-away test n

  -- Whatever happens to a new pool, every job that was submitted is, as often as it was, buffered,
  -- running, done or dropped, and no other job is.
  pub run-new_pool-all_of :
      (test : J → Bool) (workers queue : ℕ) (acts : List (Action J))
      → all_of test (run (new_pool workers queue) acts) ≡ counted test (submitted acts)
  unfolding new_pool all_of counted
  run-new_pool-all_of test workers queue acts = omega (
    arith,
    run-all_of test (new_pool workers queue) acts,
    running-away test (if ltb workers 1 then 1 else workers),
  )
