-- ===== src/Enrichment/Rows.antt =====
-- A row of the cache stays while it is fresh.
use lobster_roll.Prelude.{
  ℕ, suc, ◌+◌, ◌/◌, ◌≤◌, ◌≡◌, ap, ◌∙◌, ◌⊎◌, inl, inr, Bool, false, not, List, [], ◌∷◌, Option, none,
  some, GoString, ◌≟◌, bytes_eq, ltb, lookup, lookup-insert, All, Bool-cases, if_cases, eq_of_beq,
  arith,
}
use lobster_roll.Enrichment.{
  Enrichment, Server, Fetched, fetch_error, unknown_token, known, Answers, Reply, fresh_row, get,
  put, remembered, negatively_cached, cache_negative, took, resolve, missed, enrich_token,
}

-- A call that comes in: its token and what is answered.
unfoldable pub run : Server → List (GoString × Answers) → Server
run s [] = s
run s ((token, a) ∷ calls) = run (enrich_token s token a).0 calls

-- The row's end, when its time to live is not 0.
abbrev pub row_end : Server → ℕ → ℕ
row_end s cached_at = cached_at + s.cache.ttl / 1_000_000_000

pub fresh_row-hit :
    (ttl unix cached_at : ℕ) (e : Enrichment)
    → unix ≤ cached_at + ttl / 1_000_000_000
    → fresh_row ttl unix (some (e, cached_at)) ≡ some e
unfolding fresh_row
fresh_row-hit ttl unix cached_at e h = ground arith

-- The server has a token's row.
abbrev pub HasRow : GoString → Enrichment × ℕ → ℕ → Server → Type 0
HasRow token r ttl s = (lookup token s.cache.rows ≡ some r) × (s.cache.ttl ≡ ttl)

module _ (token : GoString) (r : Enrichment × ℕ) (ttl : ℕ) where
  took-HasRow :
      (s : Server) (other : GoString) (a : Answers) (f : Fetched)
      → (other ≟ token) ≡ false
      → HasRow token r ttl s
      → HasRow token r ttl (took s other a f).0
  unfolding took cache_negative put
  took-HasRow s other a fetch_error n h = h
  took-HasRow s other a unknown_token n h = h
  took-HasRow s other a (known e) n h =
      ground (arith, lookup-insert other token (e, a.unix) s.cache.rows, n, h)

  remembered-HasRow :
      (s : Server) (at : ℕ) (other : GoString) (o : Option ℕ)
      → HasRow token r ttl s
      → HasRow token r ttl (remembered s at other o).0
  unfolding remembered
  remembered-HasRow s at other none h = h
  remembered-HasRow s at other (some exp) h =
      if_cases (λ (x : Server × Bool). HasRow token r ttl x.0) (not (ltb at exp)) _ _ (λ _. h)
        (λ _. h)

  resolve-HasRow :
      (p : Server × Bool) (other : GoString) (a : Answers)
      → (other ≟ token) ≡ false
      → HasRow token r ttl p.0
      → HasRow token r ttl (resolve p other a).0
  unfolding resolve
  resolve-HasRow (s, unknown) other a n h =
      if_cases (λ (x : Server × Reply). HasRow token r ttl x.0) unknown _ _ (λ _. h)
        (λ _. took-HasRow (record s { fetches = suc s.fetches }) other a a.fetch n h)

  missed-HasRow :
      (s : Server) (other : GoString) (a : Answers) (o : Option Enrichment)
      → ((other ≟ token) ≡ false) ⊎ ((e : Enrichment) × (o ≡ some e))
      → HasRow token r ttl s
      → HasRow token r ttl (missed s other a o).0
  unfolding missed negatively_cached
  missed-HasRow s other a (some e) why h = h
  missed-HasRow s other a none (inl n) h =
      resolve-HasRow (negatively_cached s a.at other) other a n
        (remembered-HasRow s a.at other (lookup other s.neg_tok) h)
  missed-HasRow s other a none (inr (e, k)) h = absurd cc

-- A call of the token while its row is fresh, or of another token.
abbrev pub IsEarly : GoString → ℕ → GoString × Answers → Type 0
IsEarly token end (other, a) = ((other ≟ token) ≡ false) ⊎ (a.unix ≤ end)

step-HasRow :
    (s : Server) (token other : GoString) (a : Answers) (e : Enrichment) (cached_at ttl : ℕ)
    → HasRow token (e, cached_at) ttl s
    → IsEarly token (cached_at + ttl / 1_000_000_000) (other, a)
    → HasRow token (e, cached_at) ttl (enrich_token s other a).0
unfolding enrich_token get
step-HasRow s token other a e cached_at ttl h why =
    let P : Server × Reply → Type 0 = λ x. HasRow token (e, cached_at) ttl x.0 in
    if_cases P (other ≟ []) _ _ (λ _. h)
      (λ _.
        if_cases P (not a.read_ok) _ _ (λ _. h)
          (λ _.
            missed-HasRow token (e, cached_at) ttl s other a (get s.cache a.unix other)
              (elim (Bool-cases (other ≟ token)) [
                | inr n ↦ inl n
                | inl same ↦ elim why [
                  | inl n ↦ inl n
                  | inr early ↦ inr (
                    e,
                    ap (λ k. fresh_row s.cache.ttl a.unix (lookup k s.cache.rows))
                          (eq_of_beq other token same)
                        ∙ ap (fresh_row s.cache.ttl a.unix) h.0
                        ∙ ap (λ t. fresh_row t a.unix (some (e, cached_at))) h.1
                        ∙ fresh_row-hit ttl a.unix cached_at e early,
                  )
                ]
              ])
              h))

pub run-HasRow :
    (calls : List (GoString × Answers)) (s : Server) (token : GoString) (e : Enrichment)
    (cached_at ttl : ℕ)
    → HasRow token (e, cached_at) ttl s
    → All (IsEarly token (cached_at + ttl / 1_000_000_000)) calls
    → HasRow token (e, cached_at) ttl (run s calls)
unfolding run
run-HasRow [] s token e cached_at ttl h all = h
run-HasRow ((other, a) ∷ calls) s token e cached_at ttl h (early, all) =
    run-HasRow calls (enrich_token s other a).0 token e cached_at ttl
      (step-HasRow s token other a e cached_at ttl h early) all
