-- ===== src/Pricewatch/Capture/Closing.antt =====
-- What the loops of the service leave for the closing line of a token.
use mathlib.Core.Path.{subst}
use lobster_roll.Prelude.{
  ℕ, ◌+◌, ◌-◌, ◌≤◌, ◌≡◌, refl, sym, ◌∙◌, ap, Bool, true, false, List, [], ◌∷◌, Option, some,
  GoString, ◌≟◌, bytes_eq, ◌==◌, Bool-cases, Option-cases, if_cases, inl, inr, ◌&&◌, All, arith,
  ◌++◌,
}
use lobster_roll.Float.{Float}
use lobster_roll.Bus.{TradeDetected}
use lobster_roll.Pricewatch.Snapshots.{Row, nearest, distance}
use lobster_roll.Pricewatch.Snapshots.Closest.{NotNearer, Without, nearest-none, nearest-NotNearer}
use lobster_roll.Pricewatch.Capture.{
  Tracker, track, Prices, World, Event, traded, polled, settling, live, poll, snapshot_all,
  on_trade, pruned, poll_tick, step, run,
}
use lobster_roll.Pricewatch.Capture.Kept.{
  has, has-insert, has-insert-own, has-live, held, held-prune, held-snapshot_all, snapshot_all-held,
}

module _ {ℓ} {F : Type ℓ} where
  pub time_of : Event F → ℕ
  time_of (traded td ok now) = now
  time_of (polled p ok now) = now
  time_of (settling end_date read_ok write_ok now) = now

  -- The event happens between the two times.
  abbrev pub Between : ℕ → ℕ → Event F → Type 0
  Between from to e = (from ≤ time_of e) × (time_of e ≤ to)

  held-nearer :
      (token : GoString) (ts target : ℕ) (best : Row F) (rows : List (Row F))
      → held token ts rows ≡ true
      → All (NotNearer token target best) rows
      → distance best.ts target ≤ distance ts target
  unfolding held
  held-nearer token ts target best [] h w = absurd cc
  held-nearer token ts target best (r ∷ rows) h (p, w) =
      elim (Bool-cases (r.token_id ≟ token && r.ts == ts)) [
        | inl hit ↦ ground (arith, hit, p, ap (λ t. distance t target))
        | inr miss ↦ held-nearer token ts target best rows (ground (arith, h, miss)) w
      ]

  held-not_Without :
      (token : GoString) (ts : ℕ) (rows : List (Row F))
      → held token ts rows ≡ true
      → ¬ Without token rows
  unfolding held
  held-not_Without token ts [] h w = absurd cc
  held-not_Without token ts (r ∷ rows) h (p, w) =
      held-not_Without token ts rows (ground (arith, h, p)) w

  -- A snapshot of the token at `ts` has the nearest one found, no farther from the target than `ts`.
  held-nearest :
      (token : GoString) (ts target : ℕ) (rows : List (Row F))
      → held token ts rows ≡ true
      → (best : Row F) × (nearest token target rows ≡ some best)
        × (best.token_id ≡ token)
        × (distance best.ts target ≤ distance ts target)
  held-nearest token ts target rows h = elim (Option-cases (nearest token target rows)) [
    | inl gone ↦ absurd (held-not_Without token ts rows h (nearest-none token target rows gone))
    | inr (best, found) ↦
        let (same, near) = nearest-NotNearer token target rows found in
        (best, found, same, held-nearer token ts target best rows h near)
  ]

track-has :
    (t : Tracker) (since now : ℕ) (token k : GoString)
    → since ≤ now
    → has since token t.seen ≡ true
    → has since token (track t k now).seen ≡ true
unfolding track
track-has t since now token k le h =
    if_cases (λ (u : Tracker). has since token u.seen ≡ true) (k ≟ []) _ _ (λ _. h)
      (λ _. has-insert since now token k t.seen le h)

track-ttl : (t : Tracker) (now : ℕ) (k : GoString) → (track t k now).ttl ≡ t.ttl
unfolding track
track-ttl t now k = if_cases (λ (u : Tracker). u.ttl ≡ t.ttl) (k ≟ []) _ _ (λ _. refl) (λ _. refl)

module _ {ℓ} {F : Type ℓ} ⦃d : Float F⦄ (parse_float : GoString → Option F)
    (retention buffer : ℕ) where
  step-ttl :
      (w : World F) (e : Event F)
      → (step parse_float retention buffer w e).tracker.ttl ≡ w.tracker.ttl
  unfolding step on_trade poll_tick poll
  step-ttl w (traded td ok now) = track-ttl w.tracker now td.token_id
  step-ttl w (polled p ok now) = refl
  step-ttl w (settling end_date read_ok write_ok now) = refl

  step-has :
      (w : World F) (e : Event F) (since : ℕ) (token : GoString)
      → Between since (since + w.tracker.ttl) e
      → has since token w.tracker.seen ≡ true
      → has since token (step parse_float retention buffer w e).tracker.seen ≡ true
  unfolding step on_trade poll_tick poll time_of
  step-has w (traded td ok now) since token (from, to) h =
      track-has w.tracker since now token td.token_id from h
  step-has w (polled p ok now) since token (from, to) h =
      has-live since w.tracker.ttl now token w.tracker.seen to h
  step-has w (settling end_date read_ok write_ok now) since token b h = h

  run-has :
      (w : World F) (es : List (Event F)) (since ttl : ℕ) (token : GoString)
      → w.tracker.ttl ≡ ttl
      → All (Between since (since + ttl)) es
      → has since token w.tracker.seen ≡ true
      → ((run parse_float retention buffer w es).tracker.ttl ≡ ttl)
        × (has since token (run parse_float retention buffer w es).tracker.seen ≡ true)
  unfolding run
  run-has w [] since ttl token t all h = (t, h)
  run-has w (e ∷ es) since ttl token t (b, bs) h =
      run-has (step parse_float retention buffer w e) es since ttl token (step-ttl w e ∙ t) bs
        (step-has w e since token (subst (λ n. Between since (since + n) e) (sym t) b) h)

  held-pruned :
      (ok : Bool) (now : ℕ) (token : GoString) (ts : ℕ) (rows : List (Row F))
      → now ≤ ts + retention
      → held token ts rows ≡ true
      → held token ts (pruned parse_float retention buffer ok now rows) ≡ true
  unfolding pruned
  held-pruned false now token ts rows le h = h
  held-pruned true now token ts rows le h =
      held-prune (now - retention) token ts rows (omega (arith, le)) h

  step-held :
      (w : World F) (e : Event F) (token : GoString) (ts : ℕ)
      → time_of e ≤ ts + retention
      → held token ts w.snapshots ≡ true
      → held token ts (step parse_float retention buffer w e).snapshots ≡ true
  unfolding step on_trade poll_tick poll time_of
  step-held w (traded td ok now) token ts le h = h
  step-held w (polled p ok now) token ts le h =
      held-pruned ok now token ts
        (snapshot_all p now (live w.tracker.ttl now w.tracker.seen) w.snapshots) le
        (held-snapshot_all p now (live w.tracker.ttl now w.tracker.seen) token ts w.snapshots h)
  step-held w (settling end_date read_ok write_ok now) token ts le h = h

  run-held :
      (w : World F) (es : List (Event F)) (token : GoString) (ts : ℕ)
      → All (λ e. time_of e ≤ ts + retention) es
      → held token ts w.snapshots ≡ true
      → held token ts (run parse_float retention buffer w es).snapshots ≡ true
  unfolding run
  run-held w [] token ts all h = h
  run-held w (e ∷ es) token ts (b, bs) h =
      run-held (step parse_float retention buffer w e) es token ts bs (step-held w e token ts b h)

  on_trade-has :
      (w : World F) (td : TradeDetected) (ok : Bool) (now : ℕ)
      → (td.token_id ≟ []) ≡ false
      → has now td.token_id (on_trade parse_float retention buffer w td ok now).tracker.seen ≡ true
  unfolding on_trade track
  on_trade-has w td ok now named = rw named (has-insert-own now td.token_id w.tracker.seen)

  poll_tick-held :
      (w : World F) (p : Prices F) (ok : Bool) (since now : ℕ) (token : GoString) (mid : F)
      → now ≤ since + w.tracker.ttl
      → has since token w.tracker.seen ≡ true
      → p.midpoint token ≡ some mid
      → p.put_ok token ≡ true
      → held token now (poll_tick parse_float retention buffer w p ok now).snapshots ≡ true
  unfolding poll_tick poll
  poll_tick-held w p ok since now token mid le h quoted fits =
      held-pruned ok now token now
        (snapshot_all p now (live w.tracker.ttl now w.tracker.seen) w.snapshots) (omega arith)
        (snapshot_all-held p since now token mid (live w.tracker.ttl now w.tracker.seen) w.snapshots
          (has-live since w.tracker.ttl now token w.tracker.seen le h) quoted fits)

  run-append :
      (w : World F) (es fs : List (Event F))
      → run parse_float retention buffer w (es ++ fs)
        ≡ run parse_float retention buffer (run parse_float retention buffer w es) fs
  unfolding run
  run-append w [] fs = refl
  run-append w (e ∷ es) fs = run-append (step parse_float retention buffer w e) es fs

-- After a trade of a token, and whatever the loops do within the tracker's time to live, a poll within
-- that time that can quote the token and store its price leaves a closing line: whatever happens
-- until the retention is over, the nearest snapshot to any target exists, is of the token, and is no
-- farther from the target than the poll.
pub run-nearest {ℓ} :
    {F : Type ℓ} ⦃d : Float F⦄ (parse_float : GoString → Option F) (retention buffer : ℕ)
    (w : World F) (td : TradeDetected) (recorded : Bool) (since : ℕ) (between : List (Event F))
    (p : Prices F) (pruning : Bool) (at : ℕ) (mid : F) (after : List (Event F)) (target : ℕ)
    → (td.token_id ≟ []) ≡ false
    → All (Between since (since + w.tracker.ttl)) between
    → at ≤ since + w.tracker.ttl
    → p.midpoint td.token_id ≡ some mid
    → p.put_ok td.token_id ≡ true
    → All (λ e. time_of e ≤ at + retention) after
    → (best : Row F) × (nearest td.token_id target
          (run parse_float retention buffer w
            (traded td recorded since ∷ between ++ polled p pruning at ∷ after)).snapshots
        ≡ some best)
      × (best.token_id ≡ td.token_id)
      × (distance best.ts target ≤ distance at target)
unfolding run step
run-nearest parse_float retention buffer w td recorded since between p pruning at mid after target
      named within soon quoted fits later =
    let bought = on_trade parse_float retention buffer w td recorded since in
    let waited = run parse_float retention buffer bought between in
    let polled_once = poll_tick parse_float retention buffer waited p pruning at in
    let (ttl, kept) =
      run-has parse_float retention buffer bought between since w.tracker.ttl td.token_id
        (track-ttl w.tracker since td.token_id) within
        (on_trade-has parse_float retention buffer w td recorded since named) in
    let row =
      poll_tick-held parse_float retention buffer waited p pruning since at td.token_id mid
        (subst (λ n. at ≤ since + n) (sym ttl) soon) kept quoted fits in
    rw (run-append parse_float retention buffer bought between (polled p pruning at ∷ after)) (
      held-nearest td.token_id at target
        (run parse_float retention buffer polled_once after).snapshots
        (run-held parse_float retention buffer polled_once after td.token_id at later row))
