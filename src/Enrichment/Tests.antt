-- ===== src/Enrichment/Tests.antt =====
-- Runs of the service, and an example for its theorem.
use lobster_roll.Prelude.{
  ℕ, ◌≡◌, refl, inl, true, [], ◌∷◌, codes, ◌*◌, arith, bytes_beq, lookup, insert,
}
use lobster_roll.Enrichment.{
  Enrichment, Server, Answers, Fetched, fetch_error, unknown_token, known, resolved, not_found,
  unavailable, enrich_token,
}
use lobster_roll.Enrichment.Rows.{run}
use lobster_roll.Enrichment.Remembers.{enrich_token-run}

abbrev game : Enrichment
game = record {
  market_question = codes "Who wins?";
  outcome = codes "Yes";
  market_slug = codes "game";
  condition_id = codes "0xc";
  end_date_unix = 2_000;
}

-- Rows live for 100 seconds.
abbrev server : Server
server = record { cache = record { rows = []; ttl = 100_000_000_000 }; neg_tok = []; fetches = 0 }

abbrev answers : Fetched → ℕ → Answers
answers f unix = record {
  read_ok = true;
  write_ok = true;
  fetch = f;
  unix = unix;
  at = unix * 1_000_000_000;
}

abbrev after : Server
after = (enrich_token server (codes "7") (answers (known game) 1_000)).0

-- Another token is unknown, and is not asked for again within the hour; a failed fetch is.
outcomes :
    ((enrich_token after (codes "8") (answers unknown_token 1_000)).1 ≡ not_found)
    × ((enrich_token
          (enrich_token after (codes "8") (answers unknown_token 1_000)).0
          (codes "8")
          (answers (known game) 4_599)).1
        ≡ not_found)
    × ((enrich_token
          (enrich_token after (codes "8") (answers fetch_error 1_000)).0
          (codes "8")
          (answers (known game) 1_000)).1
        ≡ resolved game)
    × ((enrich_token after (codes "7") (answers fetch_error 1_101)).1 ≡ unavailable)
unfolding enrich_token bytes_beq lookup insert
outcomes = (refl, refl, refl, refl)

enrich_token-run_example :
    enrich_token
      (run after ((codes "8", answers unknown_token 5_000) ∷ []))
      (codes "7")
      (answers fetch_error 1_100)
    ≡ (run after ((codes "8", answers unknown_token 5_000) ∷ []), resolved game)
unfolding enrich_token bytes_beq lookup
enrich_token-run_example =
    enrich_token-run server (codes "7") (answers (known game) 1_000) (answers fetch_error 1_100)
      game ((codes "8", answers unknown_token 5_000) ∷ []) refl refl refl refl (inl refl, tt) refl
      (omega arith)
