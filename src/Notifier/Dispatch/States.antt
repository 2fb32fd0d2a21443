-- ===== src/Notifier/Dispatch/States.antt =====
-- Where the workers of a pool can stand.
use lobster_roll.Prelude.{
  ℕ, suc, zero, ◌≤◌, ◌≡◌, refl, sym, ◌∙◌, Bool, true, false, List, [], ◌∷◌, ltb, length, map,
  replicate, if_cases, if◌then◌else◌, arith,
}
use lobster_roll.Notifier.Dispatch.{
  Worker, away, waiting, exited, busy, Pool, new_pool, hand, drop, enqueue, submit, advance,
  advance_at, turn, woken, drain, Action, submits, turns, drains, step, run,
}

module _ {ℓ} {J : Type ℓ} where
  -- Some worker has ended.
  unfoldable pub some_gone : List (Worker J) → Bool
  some_gone [] = false
  some_gone (exited ∷ ws) = true
  some_gone (away ∷ ws) = some_gone ws
  some_gone (waiting ∷ ws) = some_gone ws
  some_gone (busy f ∷ ws) = some_gone ws

  -- No worker waits.
  unfoldable pub none_waits : List (Worker J) → Bool
  none_waits [] = true
  none_waits (waiting ∷ ws) = false
  none_waits (away ∷ ws) = none_waits ws
  none_waits (exited ∷ ws) = none_waits ws
  none_waits (busy f ∷ ws) = none_waits ws

  -- A closed pool has no waiting worker, and a worker ends only in a closed pool with no buffered job.
  unfoldable pub IsSound : Pool J → Type 0
  IsSound p =
      (p.closed ≡ true → none_waits p.workers ≡ true)
      × (some_gone p.workers ≡ true → (p.closed ≡ true) × (length p.jobs ≡ 0))
      × (1 ≤ length p.workers)

  some_gone-hand : (f : J) (ws : List (Worker J)) → some_gone (hand f ws).0 ≡ some_gone ws
  unfolding some_gone hand
  some_gone-hand f [] = refl
  some_gone-hand f (exited ∷ ws) = refl
  some_gone-hand f (away ∷ ws) = some_gone-hand f ws
  some_gone-hand f (waiting ∷ ws) = refl
  some_gone-hand f (busy g ∷ ws) = some_gone-hand f ws

  length-hand : (f : J) (ws : List (Worker J)) → length (hand f ws).0 ≡ length ws
  unfolding hand
  length-hand f [] = refl
  length-hand f (exited ∷ ws) = ground (arith, length-hand f ws)
  length-hand f (away ∷ ws) = ground (arith, length-hand f ws)
  length-hand f (waiting ∷ ws) = refl
  length-hand f (busy g ∷ ws) = ground (arith, length-hand f ws)

  submit-IsSound : (p : Pool J) (f : J) → IsSound p → IsSound (submit p f)
  unfolding IsSound submit enqueue drop
  submit-IsSound p f (a, b, c) =
      if_cases IsSound p.closed _ _ (λ shut. (a, b, c))
        (λ open_.
          if_cases IsSound (hand f p.workers).1 _ _
            (λ taken. (
              λ shut. absurd cc,
              λ gone. b (sym (some_gone-hand f p.workers) ∙ gone),
              omega (arith, c, length-hand f p.workers),
            ))
            (λ missed.
              if_cases IsSound (ltb (length p.jobs) p.size) _ _
                (λ room. (a, λ gone. absurd (cc (open_, (b gone).0)), c)) (λ full. (a, b, c))))

  advance_at-length :
      (i : ℕ) (closed : Bool) (jobs done : List J) (ws : List (Worker J))
      → length (advance_at i closed jobs done ws).0 ≡ length ws
  unfolding advance_at
  advance_at-length i closed jobs done [] = refl
  advance_at-length zero closed jobs done (w ∷ ws) = refl
  advance_at-length (suc i) closed jobs done (w ∷ ws) =
      ground (arith, advance_at-length i closed jobs done ws)

  none_waits-advance_at :
      (i : ℕ) (jobs done : List J) (ws : List (Worker J))
      → none_waits ws ≡ true
      → none_waits (advance_at i true jobs done ws).0 ≡ true
  unfolding none_waits advance_at advance
  none_waits-advance_at i jobs done [] h = refl
  none_waits-advance_at zero jobs done (waiting ∷ ws) h = h
  none_waits-advance_at zero jobs done (exited ∷ ws) h = h
  none_waits-advance_at zero jobs done (busy f ∷ ws) h = h
  none_waits-advance_at zero [] done (away ∷ ws) h = h
  none_waits-advance_at zero (f ∷ fs) done (away ∷ ws) h = h
  none_waits-advance_at (suc i) jobs done (waiting ∷ ws) h = absurd cc
  none_waits-advance_at (suc i) jobs done (exited ∷ ws) h = none_waits-advance_at i jobs done ws h
  none_waits-advance_at (suc i) jobs done (busy f ∷ ws) h = none_waits-advance_at i jobs done ws h
  none_waits-advance_at (suc i) jobs done (away ∷ ws) h = none_waits-advance_at i jobs done ws h

  length-advance_at-le :
      (i : ℕ) (closed : Bool) (jobs done : List J) (ws : List (Worker J))
      → length (advance_at i closed jobs done ws).1 ≤ length jobs
  unfolding advance_at advance
  length-advance_at-le i closed jobs done [] = omega arith
  length-advance_at-le zero closed jobs done (waiting ∷ ws) = omega arith
  length-advance_at-le zero closed jobs done (exited ∷ ws) = omega arith
  length-advance_at-le zero closed jobs done (busy f ∷ ws) = omega arith
  length-advance_at-le zero closed [] done (away ∷ ws) = omega arith
  length-advance_at-le zero closed (f ∷ fs) done (away ∷ ws) = omega arith
  length-advance_at-le (suc i) closed jobs done (w ∷ ws) =
      length-advance_at-le i closed jobs done ws

  -- A worker that ends in a turn finds the pool closed and nothing buffered.
  some_gone-advance_at :
      (i : ℕ) (closed : Bool) (jobs done : List J) (ws : List (Worker J))
      → (some_gone ws ≡ true → (closed ≡ true) × (length jobs ≡ 0))
      → some_gone (advance_at i closed jobs done ws).0 ≡ true
      → (closed ≡ true) × (length jobs ≡ 0)
  unfolding some_gone advance_at advance
  some_gone-advance_at i closed jobs done [] b h = b h
  some_gone-advance_at zero closed jobs done (waiting ∷ ws) b h = b h
  some_gone-advance_at zero closed jobs done (exited ∷ ws) b h = b h
  some_gone-advance_at zero closed jobs done (busy f ∷ ws) b h = b h
  some_gone-advance_at zero true [] done (away ∷ ws) b h = (refl, refl)
  some_gone-advance_at zero false [] done (away ∷ ws) b h = b h
  some_gone-advance_at zero closed (f ∷ fs) done (away ∷ ws) b h = b h
  some_gone-advance_at (suc i) closed jobs done (exited ∷ ws) b h = b refl
  some_gone-advance_at (suc i) closed jobs done (waiting ∷ ws) b h =
      some_gone-advance_at i closed jobs done ws b h
  some_gone-advance_at (suc i) closed jobs done (busy f ∷ ws) b h =
      some_gone-advance_at i closed jobs done ws b h
  some_gone-advance_at (suc i) closed jobs done (away ∷ ws) b h =
      some_gone-advance_at i closed jobs done ws b h

  turn-IsSound : (p : Pool J) (i : ℕ) → IsSound p → IsSound (turn p i)
  unfolding IsSound turn
  turn-IsSound p i (a, b, c) = (
    λ shut. rw shut (none_waits-advance_at i p.jobs p.done p.workers (a shut)),
    λ gone.
        let (shut, none_left) = some_gone-advance_at i p.closed p.jobs p.done p.workers b gone in
        (shut, omega (arith, none_left, length-advance_at-le i p.closed p.jobs p.done p.workers)),
    omega (arith, c, advance_at-length i p.closed p.jobs p.done p.workers),
  )

  none_waits-woken : (ws : List (Worker J)) → none_waits (map woken ws) ≡ true
  unfolding none_waits woken
  none_waits-woken [] = refl
  none_waits-woken (waiting ∷ ws) = none_waits-woken ws
  none_waits-woken (exited ∷ ws) = none_waits-woken ws
  none_waits-woken (busy f ∷ ws) = none_waits-woken ws
  none_waits-woken (away ∷ ws) = none_waits-woken ws

  some_gone-woken : (ws : List (Worker J)) → some_gone (map woken ws) ≡ some_gone ws
  unfolding some_gone woken
  some_gone-woken [] = refl
  some_gone-woken (waiting ∷ ws) = some_gone-woken ws
  some_gone-woken (exited ∷ ws) = refl
  some_gone-woken (busy f ∷ ws) = some_gone-woken ws
  some_gone-woken (away ∷ ws) = some_gone-woken ws

  pub length-woken : (ws : List (Worker J)) → length (map woken ws) ≡ length ws
  length-woken [] = refl
  length-woken (w ∷ ws) = ground (arith, length-woken ws)

  pub drain-IsSound : (p : Pool J) → IsSound p → IsSound (drain p)
  unfolding IsSound drain
  drain-IsSound p (a, b, c) =
      if_cases IsSound p.closed _ _ (λ shut. (a, b, c))
        (λ open_. (
          λ shut. none_waits-woken p.workers,
          λ gone. (refl, (b (sym (some_gone-woken p.workers) ∙ gone)).1),
          omega (arith, c, length-woken p.workers),
        ))

  step-IsSound : (p : Pool J) (a : Action J) → IsSound p → IsSound (step p a)
  unfolding step
  step-IsSound p (submits f) h = submit-IsSound p f h
  step-IsSound p (turns i) h = turn-IsSound p i h
  step-IsSound p drains h = drain-IsSound p h

  pub run-IsSound : (p : Pool J) (acts : List (Action J)) → IsSound p → IsSound (run p acts)
  unfolding run
  run-IsSound p [] h = h
  run-IsSound p (a ∷ acts) h = run-IsSound (step p a) acts (step-IsSound p a h)

module _ {ℓ} (J : Type ℓ) where
  some_gone-away : (n : ℕ) → some_gone {J = J} (replicate n away) ≡ false
  unfolding some_gone
  some_gone-away zero = refl
  some_gone-away (suc n) = some_gone-away n

  length-replicate : (n : ℕ) (w : Worker J) → length (replicate n w) ≡ n
  length-replicate zero w = refl
  length-replicate (suc n) w = ground (arith, length-replicate n w)

  pub new_pool-IsSound : (workers queue : ℕ) → IsSound (new_pool {J = J} workers queue)
  unfolding IsSound new_pool
  new_pool-IsSound workers queue =
      let n : ℕ = if ltb workers 1 then 1 else workers in
      let fresh : Worker J = away in
      (
        λ shut. absurd cc,
        λ gone. absurd (cc (gone, some_gone-away n)),
        ground (arith, length-replicate n fresh),
      )
