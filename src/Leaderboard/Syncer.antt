-- ===== src/Leaderboard/Syncer.antt =====
-- services/leaderboard/internal/syncer/stats.go: one refresh of the statistics and of the followed set.
-- What the leaderboard, the data API, pricewatch and the database answer is an argument. The crawls of
-- different wallets write different rows, so they are done here in the order of the candidates; the map
-- of statistics is an association list in that order. A refresh that stops on a failed row may have
-- written other rows in another order of the crawls.
pub mod Crawl
pub mod Candidates
pub mod Follows
pub mod Rows
mod Tests
use lobster_roll.Prelude.{
  ℕ, Bool, true, false, not, List, [], ◌∷◌, ◌++◌, Option, none, some, GoString, codes, ◌≟◌,
  bytes_eq, ltb, length, take, has, lookup, insert, ℤ, if◌then◌else◌, ◌||◌,
}
use lobster_roll.Float.{Float, nought}
use lobster_roll.Leaderboard.Selection.{Candidate, Criteria, Stats, select}
use lobster_roll.Leaderboard.Watchset.{Delta, Store, is_nil, is_empty, replace, set_last_sync}
use lobster_roll.Leaderboard.Records.{StatsRecord, upsert_stats, set_skill_score, set_wallet_clv}
use lobster_roll.Leaderboard.Skill.{Input, Result, Reals, shrink}
use lobster_roll.Leaderboard.Syncer.Crawl.{Answers, Clv, State, crawl_all}

-- StatsConfig, as far as a refresh reads it.
pub record StatsConfig {ℓ} (F : Type ℓ) : Type ℓ where
  pub window : GoString
  pub max_candidates : ℕ
  pub min_resolved : ℕ
  pub min_win_rate : F
  pub min_portfolio_usd : F
  pub min_realized_pnl : F
  pub require_fresh : Bool
  pub shrink_k : F
  pub top_n : ℤ

-- client.Entry.
pub record Entry {ℓ} (F : Type ℓ) : Type ℓ where
  pub wallet : GoString
  pub amount : F

unfoldable pub add_window : List GoString → GoString → List GoString
add_window out w = if not (w ≟ []) then (if has w out then out else out ++ w ∷ []) else out

unfoldable pub add_windows : List GoString → List GoString → List GoString
unfolding add_window
add_windows out [] = out
add_windows out (w ∷ ws) = add_windows (add_window out w) ws

abbrev pub default_candidate_windows : List GoString
default_candidate_windows = codes "7d" ∷ codes "30d" ∷ codes "all" ∷ []

-- The variables of candidatePool: `seen` has the wallets of `order`.
pub record Pool {ℓ} (F : Type ℓ) : Type ℓ where
  pub order : List GoString
  pub profit30 : List (GoString × F)
  pub any_ok : Bool

module _ {ℓ} {F : Type ℓ} where
  unfoldable pub candidate_windows : StatsConfig F → List GoString
  unfolding add_windows
  candidate_windows cfg = add_windows [] (default_candidate_windows ++ cfg.window ∷ [])

  unfoldable pub enter_entry : GoString → Pool F → Entry F → Pool F
  enter_entry w p e = record p {
    profit30 = if w ≟ codes "30d" then insert e.wallet e.amount p.profit30 else p.profit30;
    order = if has e.wallet p.order then p.order else p.order ++ e.wallet ∷ [];
  }

  unfoldable pub enter_entries : GoString → Pool F → List (Entry F) → Pool F
  unfolding enter_entry
  enter_entries w p [] = p
  enter_entries w p (e ∷ es) = enter_entries w (enter_entry w p e) es

  unfoldable pub enter_window : GoString → Pool F → Option (List (Entry F)) → Pool F
  unfolding enter_entries
  enter_window w p none = p
  enter_window w p (some es) = enter_entries w (record p { any_ok = true }) es

  unfoldable pub enter_windows :
      (GoString → Option (List (Entry F))) → Pool F → List GoString → Pool F
  unfolding enter_window
  enter_windows fetch p [] = p
  enter_windows fetch p (w ∷ ws) = enter_windows fetch (enter_window w p (fetch w)) ws

  unfoldable pub criteria : StatsConfig F → Criteria F
  criteria cfg = record {
    min_resolved = cfg.min_resolved;
    min_win_rate = cfg.min_win_rate;
    min_portfolio_usd = cfg.min_portfolio_usd;
    min_realized_pnl = cfg.min_realized_pnl;
    require_fresh = cfg.require_fresh;
  }

  unfoldable pub population : List (GoString × Stats F) → List (Input F)
  population [] = []
  population ((w, st) ∷ rest) =
      record { wallet = w; roi = st.roi; n = st.resolved_markets } ∷ population rest

  unfoldable pub with_shrunk :
      Result F → Option (Stats F) → List (GoString × Stats F) → List (GoString × Stats F)
  with_shrunk r none stats = stats
  with_shrunk r (some st) stats = insert r.wallet (record st { shrunk_roi = r.shrunk_roi }) stats

  -- The loop over the results of `Shrink`; none when a row is not written.
  unfoldable pub score_all :
      (GoString → Bool)
      → List (GoString × StatsRecord F)
      → List (GoString × Stats F)
      → List (Result F)
      → List (GoString × StatsRecord F) × Option (List (GoString × Stats F))
  unfolding with_shrunk
  score_all scored rows stats [] = (rows, some stats)
  score_all scored rows stats (r ∷ rs) =
      let rest =
        score_all scored (set_skill_score r.wallet r.score rows)
          (with_shrunk r (lookup r.wallet stats) stats) rs in
      if scored r.wallet then rest else (rows, none)

module _ {ℓ} {F : Type ℓ} ⦃d : Float F⦄ where
  -- A wallet that is in no 30d page has the zero profit.
  unfoldable pub profit_of : Option F → F
  profit_of none = nought
  profit_of (some x) = x

  unfoldable pub candidates_of : List (GoString × F) → List GoString → List (Candidate F)
  unfolding profit_of
  candidates_of profits [] = []
  candidates_of profits (w ∷ ws) =
      record { wallet = w; profit_30d = profit_of (lookup w profits) } ∷ candidates_of profits ws

  unfoldable pub candidate_pool :
      StatsConfig F → (GoString → Option (List (Entry F))) → Option (List (Candidate F))
  unfolding candidate_windows enter_windows candidates_of
  candidate_pool cfg fetch =
      let start : Pool F = record { order = []; profit30 = []; any_ok = false } in
      let p = enter_windows fetch start (candidate_windows cfg) in
      let cands = candidates_of p.profit30 p.order in
      if not p.any_ok
      then none
      else some
          (if ltb cfg.max_candidates (length cands) then take cfg.max_candidates cands else cands)

  -- The loop over pricewatch's answer.
  unfoldable pub take_clv :
      (GoString → Bool)
      → Clv F
      → Option (Stats F)
      → List (GoString × StatsRecord F) × List (GoString × Stats F)
      → List (GoString × StatsRecord F) × List (GoString × Stats F)
  take_clv written c none (rows, stats) = (rows, stats)
  take_clv written c (some st) (rows, stats) = (
    if written c.wallet then set_wallet_clv c.wallet c.avg_clv c.n rows else rows,
    insert c.wallet (record st { avg_clv = c.avg_clv; clv_n = c.n }) stats,
  )

  unfoldable pub take_clvs :
      (GoString → Bool)
      → List (GoString × StatsRecord F) × List (GoString × Stats F)
      → List (Clv F)
      → List (GoString × StatsRecord F) × List (GoString × Stats F)
  unfolding take_clv
  take_clvs written acc [] = acc
  take_clvs written acc (c ∷ cs) =
      take_clvs written (take_clv written c (lookup c.wallet acc.1) acc) cs

  unfoldable pub returned : GoString → List (Clv F) → Bool
  returned w [] = false
  returned w (c ∷ cs) = c.wallet ≟ w || returned w cs

  -- The loop that clears what is stale.
  unfoldable pub clear_stale :
      (GoString → Bool)
      → List (Clv F)
      → List (GoString × Stats F)
      → List (GoString × StatsRecord F)
      → List (GoString × StatsRecord F)
  unfolding returned
  clear_stale written cs [] rows = rows
  clear_stale written cs ((w, st) ∷ rest) rows =
      clear_stale written cs rest
        (if returned w cs then rows else if written w then set_wallet_clv w nought 0 rows else rows)

  unfoldable pub clv_from :
      (GoString → Bool)
      → Option (List (Clv F))
      → List (GoString × StatsRecord F) × List (GoString × Stats F)
      → List (GoString × StatsRecord F) × List (GoString × Stats F)
  unfolding take_clvs clear_stale
  clv_from written none acc = acc
  clv_from written (some cs) acc =
      let (rows, stats) = take_clvs written acc cs in (clear_stale written cs stats rows, stats)

  -- `enrichCLV`.
  unfoldable pub enrich_clv :
      Answers F
      → List (GoString × StatsRecord F) × List (GoString × Stats F)
      → List (GoString × StatsRecord F) × List (GoString × Stats F)
  unfolding clv_from
  enrich_clv a (rows, []) = (rows, [])
  enrich_clv a (rows, st ∷ stats) =
      if a.clv_on then clv_from a.clv_written a.clv (rows, st ∷ stats) else (rows, st ∷ stats)

  -- What the refresh makes of the delta of `Replace`, with the store after it.
  unfoldable pub announce : State F → Answers F → Store × Option Delta → State F × Bool
  announce s a (store, none) = (s, false)
  announce s a (store, some d) =
      let told = record s { store = store; sent = if is_empty d then s.sent else d ∷ s.sent } in
      if a.synced then (record told { store = set_last_sync store a.now }, true) else (told, false)

  unfoldable pub follow : State F → Answers F → List GoString → State F × Bool
  unfolding announce is_nil
  follow s a watchset =
      if is_nil watchset
      then (s, true)
      else announce s a (replace s.store watchset a.now a.opened a.written)

module _ {ℓ} {F : Type ℓ} ⦃d : Float F⦄ (reals : Reals F) where
  -- After the scores are written.
  unfoldable pub selected :
      StatsConfig F
      → State F
      → Answers F
      → List (Candidate F)
      → List (GoString × StatsRecord F) × Option (List (GoString × Stats F))
      → State F × Bool
  unfolding enrich_clv follow criteria
  selected cfg s a cands (rows, none) = (record s { rows = rows }, false)
  selected cfg s a cands (rows, some stats) =
      let (rows', stats') = enrich_clv a (rows, stats) in
      follow (record s { rows = rows' }) a (select cands stats' (criteria cfg) cfg.top_n)

  -- After the crawl.
  unfoldable pub scored :
      StatsConfig F
      → State F
      → Answers F
      → List (Candidate F)
      → List (GoString × StatsRecord F) × Option (List (GoString × Stats F))
      → State F × Bool
  unfolding selected score_all population
  scored cfg s a cands (rows, none) = (record s { rows = rows }, false)
  scored cfg s a cands (rows, some stats) =
      selected cfg s a cands
        (score_all a.score_written rows stats (shrink reals (population stats) cfg.shrink_k))

  unfoldable pub refresh_with :
      StatsConfig F → State F → Answers F → Option (List (Candidate F)) → State F × Bool
  unfolding scored
  refresh_with cfg s a none = (s, false)
  refresh_with cfg s a (some cands) = scored cfg s a cands (crawl_all reals a s.rows [] cands)

  -- `refresh`, with whether it succeeds.
  unfoldable pub refresh :
      StatsConfig F → State F → Answers F → (GoString → Option (List (Entry F))) → State F × Bool
  unfolding refresh_with candidate_pool
  refresh cfg s a fetch = refresh_with cfg s a (candidate_pool cfg fetch)
