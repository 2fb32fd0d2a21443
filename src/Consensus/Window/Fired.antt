-- ===== src/Consensus/Window/Fired.antt =====
-- When a cohort fires, and what the window keeps.
use lobster_roll.Prelude.{
  ℕ, ◌-◌, ◌≤◌, ◌<◌, ◌≡◌, refl, ◌∙◌, Bool, true, false, not, ◌&&◌, List, [], ◌∷◌, ◌++◌, GoString,
  bytes_eq, keep, All, All-keep, beq_refl, arith, ltb, leb, ◌==◌, if_cases,
}
use lobster_roll.Float.{Float}
use lobster_roll.Bus.{TradeDetected}
use lobster_roll.Consensus.Window.{
  Event, FiredRow, Store, cohort_count, is_row, fired_count, delete_fired, upsert_fired,
  decide_fire, in_cohort, any_event, prune, reap, cohort_of, BigFloat, event_of, record_trade,
}

is_row_self : (r : FiredRow) → is_row r.fired_token r.fired_side r ≡ true
unfolding is_row
is_row_self r = ground (arith, beq_refl r.fired_token, beq_refl r.fired_side)

fired_count-upsert_fired :
    (row : FiredRow) (rs : List FiredRow)
    → fired_count row.fired_token row.fired_side (upsert_fired row rs) ≡ row.count
unfolding fired_count upsert_fired
fired_count-upsert_fired row [] = ground (arith, is_row_self row)
fired_count-upsert_fired row (r ∷ rs) =
    ground (arith, is_row_self row, fired_count-upsert_fired row rs)

fired_count-delete_fired :
    (token side : GoString) (rs : List FiredRow)
    → fired_count token side (delete_fired token side rs) ≡ 0
unfolding fired_count delete_fired keep
fired_count-delete_fired token side [] = refl
fired_count-delete_fired token side (r ∷ rs) =
    ground (arith, fired_count-delete_fired token side rs)

-- The counts of one cohort, one record after the other, with the answers to fire or not.
pub decide_all : ℕ → GoString → GoString → List (ℕ × ℕ) → List FiredRow → List FiredRow × List Bool
decide_all m token side [] rs = (rs, [])
decide_all m token side ((now, count) ∷ cs) rs =
    let (rs', fire) = decide_fire m token side count now rs in
    let (last, fires) = decide_all m token side cs rs' in (last, fire ∷ fires)

module _ (m : ℕ) (token side : GoString) where
  steady :
      (now count : ℕ) (rs : List FiredRow)
      → m ≤ count
      → count ≤ fired_count token side rs
      → decide_fire m token side count now rs ≡ (rs, false)
  unfolding decide_fire
  steady now count rs low top = ground arith

  fired_high :
      (now count : ℕ) (rs : List FiredRow)
      → (decide_fire m token side count now rs).1 ≡ true
      → fired_count token side (decide_fire m token side count now rs).0 ≡ count
  unfolding decide_fire
  fired_high now count rs h = ground (
    arith,
    fired_count-upsert_fired
        (record { fired_token = token; fired_side = side; count = count; fired_unix = now }) rs,
  )

  pub decide_fire-above :
      (now count : ℕ) (rs : List FiredRow)
      → (decide_fire m token side count now rs).1
        ≡ (leb m count && ltb (fired_count token side rs) count)
  unfolding decide_fire
  decide_fire-above now count rs = ground arith

  settled :
      (high : ℕ) (cs : List (ℕ × ℕ)) (rs : List FiredRow)
      → fired_count token side rs ≡ high
      → All (λ c. (m ≤ c.1) × (c.1 ≤ high)) cs
      → let (rs', fires) = decide_all m token side cs rs in
        All (λ b. b ≡ false) fires × (fired_count token side rs' ≡ high)
  unfolding decide_all
  settled high [] rs h a = (tt, h)
  settled high ((now, c) ∷ cs) rs h ((low, top), a) =
      let (quiet, same) = settled high cs rs h a in
      rw (steady now c rs low (omega arith)) ((refl, quiet), same)

  -- Once a cohort has fired at a size, it does not fire again for it or for a smaller size, as long
  -- as its size stays at or above the threshold, and then it fires for exactly the sizes above it.
  pub decide_fire_once :
      (now later count count' : ℕ) (cs : List (ℕ × ℕ)) (rs : List FiredRow)
      → (decide_fire m token side count now rs).1 ≡ true
      → All (λ c. (m ≤ c.1) × (c.1 ≤ count)) cs
      → let (rs', fires) = decide_all m token side cs (decide_fire m token side count now rs).0 in
        All (λ b. b ≡ false) fires
        × ((decide_fire m token side count' later rs').1 ≡ (leb m count' && ltb count count'))
  decide_fire_once now later count count' cs rs h a =
      let rs' = (decide_fire m token side count now rs).0 in
      let (quiet, high) = settled count cs rs' (fired_high now count rs h) a in
      (quiet, decide_fire-above later count' (decide_all m token side cs rs').0 ∙ rw high)

  -- After the size was below the threshold, a size at or above it fires, unless the threshold is 0.
  pub decide_fire_resets :
      (now later count count' : ℕ) (rs : List FiredRow)
      → count < m
      → m ≤ count'
      → ((decide_fire m token side count now rs).1 ≡ false)
        × ((decide_fire m token side count' later (decide_fire m token side count now rs).0).1
            ≡ true)
  unfolding decide_fire
  decide_fire_resets now later count count' rs h k =
      ground (arith, fired_count-delete_fired token side rs)

All-upsert_fired :
    (P : FiredRow → Type 0) (row : FiredRow) (rs : List FiredRow)
    → P row
    → All P rs
    → All P (upsert_fired row rs)
unfolding upsert_fired
All-upsert_fired P row [] p a = (p, tt)
All-upsert_fired P row (r ∷ rs) p (q, a) =
    if_cases (All P) (is_row row.fired_token row.fired_side r) _ _ (λ _. (p, a))
      (λ _. (q, All-upsert_fired P row rs p a))

decide_fire-All :
    (P : FiredRow → Type 0) (m : ℕ) (token side : GoString) (count now : ℕ) (rs : List FiredRow)
    → (m ≤ count
        → P (record { fired_token = token; fired_side = side; count = count; fired_unix = now }))
    → All P rs
    → All P (decide_fire m token side count now rs).0
unfolding decide_fire delete_fired
decide_fire-All P m token side count now rs p a =
    if_cases {A = List FiredRow × Bool} (λ x. All P x.0) (ltb count m) _ _
      (λ _.
        if_cases {A = List FiredRow × Bool} (λ x. All P x.0) (fired_count token side rs == 0) _ _
          (λ _. a) (λ _. All-keep P (λ r. not (is_row token side r)) rs a))
      (λ e.
        if_cases {A = List FiredRow × Bool} (λ x. All P x.0) (ltb (fired_count token side rs) count)
          _ _ (λ _. All-upsert_fired P _ rs (p (ground arith)) a) (λ _. a))

module _ {ℓ} {F : Type ℓ} where
  -- The table holds only cohorts that reached the threshold and still have an event in the window.
  abbrev pub IsLive : ℕ → ℕ → List (Event F) → FiredRow → Type 0
  IsLive m cutoff events r =
      (m ≤ r.count) × (any_event (in_cohort r.fired_token r.fired_side cutoff) events ≡ true)

  -- Reaping keeps the rows whose cohort has an event, and forgets no count.
  reap-IsLive :
      (m cutoff : ℕ) (events : List (Event F)) (rs : List FiredRow)
      → All (λ r. m ≤ r.count) rs
      → All (IsLive m cutoff events) (reap cutoff events rs)
  unfolding reap keep
  reap-IsLive m cutoff events [] a = tt
  reap-IsLive m cutoff events (r ∷ rs) (p, a) =
      if_cases (All (IsLive m cutoff events))
        (any_event (in_cohort r.fired_token r.fired_side cutoff) events) _ _
        (λ e. ((p, e), reap-IsLive m cutoff events rs a)) (λ _. reap-IsLive m cutoff events rs a)

  any_event-snoc :
      (p : Event F → Bool) (es : List (Event F)) (e : Event F)
      → p e ≡ true
      → any_event p (es ++ e ∷ []) ≡ true
  unfolding any_event
  any_event-snoc p [] e h = ground arith
  any_event-snoc p (x ∷ es) e h = ground (arith, any_event-snoc p es e h)

  any_event-keep :
      (p q : Event F → Bool) (es : List (Event F))
      → ((e : Event F) → p e ≡ true → q e ≡ true)
      → any_event p es ≡ true
      → any_event p (keep q es) ≡ true
  unfolding any_event keep
  any_event-keep p q [] i h = cc
  any_event-keep p q (e ∷ es) i h = ground (arith, i e, any_event-keep p q es i)

  prune-All :
      (cutoff : ℕ) (es : List (Event F)) → All (λ e. cutoff ≤ e.observed_unix) (prune cutoff es)
  unfolding prune keep
  prune-All cutoff [] = tt
  prune-All cutoff (e ∷ es) =
      if_cases (All (λ e. cutoff ≤ e.observed_unix)) (not (ltb e.observed_unix cutoff)) _ _
        (λ h. (ground arith, prune-All cutoff es)) (λ _. prune-All cutoff es)

module _ {ℓ} {F B : Type ℓ} ⦃d : Float F⦄ (big : BigFloat B F) where
  fresh_event :
      (now cutoff : ℕ) (ev : TradeDetected) (es : List (Event F))
      → cutoff ≤ now
      → let row = event_of big now ev in
        any_event (in_cohort row.token_id row.side cutoff) (prune cutoff (es ++ row ∷ [])) ≡ true
  unfolding prune in_cohort event_of
  fresh_event now cutoff ev es h =
      let row = event_of big now ev in
      any_event-keep (in_cohort row.token_id row.side cutoff)
        (λ e. not (ltb e.observed_unix cutoff)) (es ++ row ∷ []) (λ e k. ground arith)
        (any_event-snoc (in_cohort row.token_id row.side cutoff) es row
          (ground (arith, beq_refl row.token_id, beq_refl row.side)))

  -- After a trade is recorded with a working database, every remaining event is inside the window,
  -- and every row of the fired table has a count at or above the threshold and an event inside the
  -- window, if the counts were at or above it before: no row outlives its cohort.
  pub record_trade-IsLive :
      (now : ℕ) (ev : TradeDetected) (s : Store F)
      → All (λ r. s.min_wallets ≤ r.count) s.fired
      → let after = (record_trade big true now ev s).0 in
        All (λ e. now - s.window ≤ e.observed_unix) after.events
        × All (IsLive s.min_wallets (now - s.window) after.events) after.fired
  unfolding record_trade
  record_trade-IsLive now ev s a =
      let cutoff = now - s.window in
      let row = event_of big now ev in
      let events = prune cutoff (s.events ++ row ∷ []) in
      (
        prune-All cutoff (s.events ++ row ∷ []),
        decide_fire-All (IsLive s.min_wallets cutoff events) s.min_wallets row.token_id row.side
            (cohort_count (cohort_of row.token_id row.side cutoff events)) now
            (reap cutoff events s.fired)
            (λ m. (m, fresh_event now cutoff ev s.events (omega arith)))
            (reap-IsLive s.min_wallets cutoff events s.fired a),
      )
