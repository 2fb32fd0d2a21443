-- ===== src/Notifier/Dispatch.antt =====
-- services/notifier/internal/dispatch: a pool of workers on a bounded queue. The channel is the list of
-- its buffered jobs, and a goroutine the point it stands at; what was run and what was dropped is kept.
-- A turn of a goroutine is one step: a receive, or the end of the job that it runs.
pub mod Counts
pub mod States
pub mod Sweeps
pub mod Drained
mod Tests
use lobster_roll.Prelude.{
  ℕ, suc, zero, Bool, true, false, List, [], ◌∷◌, ◌++◌, ltb, length, map, replicate, if◌then◌else◌,
}

-- A worker is on its way to the receive, waits there, runs a job, or has ended.
pub data Worker {ℓ} (J : Type ℓ) : Type ℓ where
  away waiting exited : Worker J
  busy : J → Worker J

pub record Pool {ℓ} (J : Type ℓ) : Type ℓ where
  pub jobs : List J
  pub size : ℕ
  pub workers : List (Worker J)
  pub closed : Bool
  pub dropped : List J
  pub done : List J

module _ {ℓ} {J : Type ℓ} where
  unfoldable pub new_pool : ℕ → ℕ → Pool J
  new_pool workers queue = record {
    jobs = [];
    size = queue;
    workers = replicate (if ltb workers 1 then 1 else workers) away;
    closed = false;
    dropped = [];
    done = [];
  }

  -- The job goes to a worker that waits, if there is one.
  unfoldable pub hand : J → List (Worker J) → List (Worker J) × Bool
  hand f [] = ([], false)
  hand f (waiting ∷ ws) = (busy f ∷ ws, true)
  hand f (w ∷ ws) = let (vs, taken) = hand f ws in (w ∷ vs, taken)

  unfoldable pub drop : Pool J → J → Pool J
  drop p f = record p { dropped = f ∷ p.dropped }

  unfoldable pub enqueue : Pool J → J → Pool J
  unfolding hand drop
  enqueue p f =
      let (ws, taken) = hand f p.workers in
      if taken
      then record p { workers = ws }
      else if ltb (length p.jobs) p.size
      then record p { jobs = p.jobs ++ f ∷ [] }
      else drop p f

  unfoldable pub submit : Pool J → J → Pool J
  unfolding enqueue drop
  submit p f = if p.closed then drop p f else enqueue p f

  -- A turn of a worker, with the buffered and the finished jobs.
  unfoldable pub advance : Bool → List J → List J → Worker J → Worker J × List J × List J
  advance closed jobs done (busy f) = (away, jobs, f ∷ done)
  advance closed [] done away = (if closed then exited else waiting, [], done)
  advance closed (f ∷ fs) done away = (busy f, fs, done)
  advance closed jobs done waiting = (waiting, jobs, done)
  advance closed jobs done exited = (exited, jobs, done)

  unfoldable pub advance_at :
      ℕ → Bool → List J → List J → List (Worker J) → List (Worker J) × List J × List J
  unfolding advance
  advance_at i closed jobs done [] = ([], jobs, done)
  advance_at zero closed jobs done (w ∷ ws) =
      let (v, fs, gs) = advance closed jobs done w in (v ∷ ws, fs, gs)
  advance_at (suc i) closed jobs done (w ∷ ws) =
      let (vs, fs, gs) = advance_at i closed jobs done ws in (w ∷ vs, fs, gs)

  unfoldable pub turn : Pool J → ℕ → Pool J
  unfolding advance_at
  turn p i =
      let (ws, jobs, done) = advance_at i p.closed p.jobs p.done p.workers in
      record p { workers = ws; jobs = jobs; done = done }

  -- Closing the channel wakes the workers that wait on it.
  unfoldable pub woken : Worker J → Worker J
  woken waiting = away
  woken w = w

  -- `Drain`, before it waits for the workers to end.
  unfoldable pub drain : Pool J → Pool J
  unfolding woken
  drain p = if p.closed then p else record p { closed = true; workers = map woken p.workers }

-- What happens to a pool.
pub data Action {ℓ} (J : Type ℓ) : Type ℓ where
  submits : J → Action J
  turns : ℕ → Action J
  drains : Action J

module _ {ℓ} {J : Type ℓ} where
  unfoldable pub step : Pool J → Action J → Pool J
  unfolding submit turn drain
  step p (submits f) = submit p f
  step p (turns i) = turn p i
  step p drains = drain p

  unfoldable pub run : Pool J → List (Action J) → Pool J
  unfolding step
  run p [] = p
  run p (a ∷ acts) = run (step p a) acts
