-- ===== src/Leaderboard/Syncer/Follows.antt =====
-- What a refresh may do to the followed set, and to those who stream it.
use mathlib.Core.Path.{fun_ext, subst}
use lobster_roll.Prelude.{
  ◌≡◌, refl, sym, ◌∙◌, ◌⊎◌, inl, inr, Bool, true, false, List, [], ◌∷◌, Option, none, some,
  GoString, bytes_eq, has, Bool-cases, if_cases, if◌then◌else◌, beq_refl, arith,
}
use lobster_roll.Float.{Float}
use lobster_roll.Leaderboard.Selection.{Candidate, Stats, select}
use lobster_roll.Leaderboard.Watchset.{Delta, Store, is_nil, is_empty, replace, set_last_sync}
use lobster_roll.Leaderboard.Watchset.Diff.{
  member, changed, changed-is_empty, replace-changed, replace-some,
}
use lobster_roll.Leaderboard.Records.{StatsRecord}
use lobster_roll.Leaderboard.Skill.{Reals}
use lobster_roll.Leaderboard.Syncer.Crawl.{Answers, State}
use lobster_roll.Leaderboard.Syncer.{
  StatsConfig, Entry, announce, follow, selected, scored, refresh_with, refresh, candidate_pool,
  enrich_clv, criteria,
}

some_wallet : (ws : List GoString) → is_nil ws ≡ false → (w : GoString) × (has w ws ≡ true)
unfolding is_nil has
some_wallet [] h = absurd cc
some_wallet (w ∷ ws) h = (w, ground (arith, beq_refl w))

module _ {ℓ} {F : Type ℓ} ⦃d : Float F⦄ where
  -- The followed set and what was broadcast of it, before and after.
  abbrev pub Told : State F → State F → Type 0
  Told s t =
      ((member t.store ≡ member s.store) × (t.sent ≡ s.sent))
      ⊎ ((e : Delta) × (member t.store ≡ changed (member s.store) e)
          × (t.sent ≡ e ∷ s.sent)
          × (is_empty e ≡ false)
          × (w : GoString) × (member t.store w ≡ true))

  announce-Told :
      (s : State F) (a : Answers F) (store : Store) (e : Delta) (w : GoString)
      → member store w ≡ true
      → member store ≡ changed (member s.store) e
      → Told s (announce s a (store, some e)).0
  unfolding announce set_last_sync member
  announce-Told s a store e w here new =
      let sent = if is_empty e then s.sent else e ∷ s.sent in
      let told : Told s (record s { store = store; sent = sent }) = elim (Bool-cases (is_empty e)) [
        | inl h ↦ rw h (inl (new ∙ fun_ext (λ v. changed-is_empty (member s.store) e v h), refl))
        | inr h ↦ rw h (inr (e, new, refl, h, w, here))
      ] in
      if_cases (λ (r : State F × Bool). Told s r.0) a.synced _ _ (λ _. told) (λ _. told)

  follow-Told : (s : State F) (a : Answers F) (ws : List GoString) → Told s (follow s a ws).0
  unfolding follow announce
  follow-Told s a ws =
      let r = replace s.store ws a.now a.opened a.written in
      if_cases (λ (x : State F × Bool). Told s x.0) (is_nil ws) _ _ (λ _. inl (refl, refl))
        (λ full. elim (replace-changed s.store ws a.now a.opened a.written) [
          | inl (failed, same) ↦
              subst (λ o. Told s (announce s a (r.0, o)).0) (sym failed) (inl (refl, refl))
          | inr (e, done, new) ↦
              subst (λ o. Told s (announce s a (r.0, o)).0) (sym done)
                (let (w, listed) = some_wallet ws full in
                  announce-Told s a r.0 e w
                    (replace-some s.store ws a.now a.opened a.written e w full done ∙ listed) new)
        ])

module _ {ℓ} {F : Type ℓ} ⦃d : Float F⦄ (reals : Reals F) where
  selected-Told :
      (cfg : StatsConfig F) (s : State F) (a : Answers F) (cands : List (Candidate F))
      (r : List (GoString × StatsRecord F) × Option (List (GoString × Stats F)))
      → Told s (selected reals cfg s a cands r).0
  unfolding selected
  selected-Told cfg s a cands (rows, none) = inl (refl, refl)
  selected-Told cfg s a cands (rows, some stats) =
      let enriched = enrich_clv a (rows, stats) in
      follow-Told (record s { rows = enriched.0 }) a
        (select cands enriched.1 (criteria cfg) cfg.top_n)

  scored-Told :
      (cfg : StatsConfig F) (s : State F) (a : Answers F) (cands : List (Candidate F))
      (r : List (GoString × StatsRecord F) × Option (List (GoString × Stats F)))
      → Told s (scored reals cfg s a cands r).0
  unfolding scored
  scored-Told cfg s a cands (rows, none) = inl (refl, refl)
  scored-Told cfg s a cands (rows, some stats) = selected-Told cfg s a cands _

  refresh_with-Told :
      (cfg : StatsConfig F) (s : State F) (a : Answers F) (o : Option (List (Candidate F)))
      → Told s (refresh_with reals cfg s a o).0
  unfolding refresh_with
  refresh_with-Told cfg s a none = inl (refl, refl)
  refresh_with-Told cfg s a (some cands) = scored-Told cfg s a cands _

  -- However a refresh ends, the followed set and the streams agree: either the set is as it was and
  -- nothing is broadcast, or one delta is broadcast that is not empty and takes the old set to the new
  -- one, which has a wallet. So a refresh never empties the set.
  pub refresh-Told :
      (cfg : StatsConfig F) (s : State F) (a : Answers F)
      (fetch : GoString → Option (List (Entry F)))
      → Told s (refresh reals cfg s a fetch).0
  unfolding refresh
  refresh-Told cfg s a fetch = refresh_with-Told cfg s a (candidate_pool cfg fetch)
