-- ===== src/Enrichment/Remembers.antt =====
-- What the service remembers of a token, and for how long.
use mathlib.Core.Path.{subst}
use lobster_roll.Prelude.{
  ℕ, suc, ◌+◌, ◌/◌, ◌≤◌, ◌≡◌, refl, sym, ap, ◌∙◌, Bool, true, false, not, List, [], Option, none,
  some, GoString, ◌≟◌, bytes_eq, ltb, lookup, lookup-insert, All, if_cases, beq_refl, arith,
}
use lobster_roll.Enrichment.{
  Enrichment, Server, known, Answers, Reply, resolved, fresh_row, get, put, remembered,
  negatively_cached, took, resolve, missed, enrich_token,
}
use lobster_roll.Enrichment.Rows.{run, row_end, HasRow, IsEarly, fresh_row-hit, run-HasRow}

took-fetched :
    (s : Server) (token : GoString) (a : Answers) (e : Enrichment)
    → a.write_ok ≡ true
    → HasRow token (e, a.unix) s.cache.ttl (took s token a (known e)).0
unfolding took put
took-fetched s token a e ok =
    rw ok (lookup-insert token token (e, a.unix) s.cache.rows ∙ rw (beq_refl token) refl, refl)

remembered-same :
    (s : Server) (at : ℕ) (token : GoString) (o : Option ℕ)
    → ((remembered s at token o).0.fetches ≡ s.fetches)
      × ((remembered s at token o).0.cache ≡ s.cache)
unfolding remembered
remembered-same s at token none = (refl, refl)
remembered-same s at token (some exp) =
    if_cases (λ (x : Server × Bool). (x.0.fetches ≡ s.fetches) × (x.0.cache ≡ s.cache))
      (not (ltb at exp)) _ _ (λ _. (refl, refl)) (λ _. (refl, refl))

resolve-fetched :
    (p : Server × Bool) (n ttl : ℕ) (token : GoString) (a : Answers) (e : Enrichment)
    → p.0.fetches ≡ n
    → p.0.cache.ttl ≡ ttl
    → a.fetch ≡ known e
    → a.write_ok ≡ true
    → (resolve p token a).0.fetches ≡ suc n
    → HasRow token (e, a.unix) ttl (resolve p token a).0
unfolding resolve
resolve-fetched (s, unknown) n ttl token a e same t k ok =
    if_cases (λ (x : Server × Reply). x.0.fetches ≡ suc n → HasRow token (e, a.unix) ttl x.0)
      unknown _ _ (λ _ called. absurd (omega (arith, same, called)))
      (λ _ called.
        let calling = record s { fetches = suc s.fetches } in
        subst (λ f. HasRow token (e, a.unix) ttl (took calling token a f).0) (sym k)
          (subst (λ m. HasRow token (e, a.unix) m (took calling token a (known e)).0) t
            (took-fetched calling token a e ok)))

missed-fetched :
    (s : Server) (token : GoString) (a : Answers) (e : Enrichment) (o : Option Enrichment)
    → a.fetch ≡ known e
    → a.write_ok ≡ true
    → (missed s token a o).0.fetches ≡ suc s.fetches
    → HasRow token (e, a.unix) s.cache.ttl (missed s token a o).0
unfolding missed negatively_cached
missed-fetched s token a e (some x) k ok called = absurd (omega (arith, called))
missed-fetched s token a e none k ok called =
    let (same, cache) = remembered-same s a.at token (lookup token s.neg_tok) in
    resolve-fetched (negatively_cached s a.at token) s.fetches s.cache.ttl token a e same
      (ap (λ c. c.ttl) cache) k ok called

enrich_token-fetched :
    (s : Server) (token : GoString) (a : Answers) (e : Enrichment)
    → a.fetch ≡ known e
    → a.write_ok ≡ true
    → (enrich_token s token a).0.fetches ≡ suc s.fetches
    → HasRow token (e, a.unix) s.cache.ttl (enrich_token s token a).0
unfolding enrich_token
enrich_token-fetched s token a e k ok =
    let P : Server × Reply → Type 0 =
      λ x. x.0.fetches ≡ suc s.fetches → HasRow token (e, a.unix) s.cache.ttl x.0 in
    if_cases P (token ≟ []) _ _ (λ _ called. absurd (omega (arith, called)))
      (λ _.
        if_cases P (not a.read_ok) _ _ (λ _ called. absurd (omega (arith, called)))
          (λ _. missed-fetched s token a e (get s.cache a.unix token) k ok))

enrich_token-hit :
    (s : Server) (token : GoString) (b : Answers) (e : Enrichment) (cached_at ttl : ℕ)
    → HasRow token (e, cached_at) ttl s
    → (token ≟ []) ≡ false
    → b.read_ok ≡ true
    → b.unix ≤ cached_at + ttl / 1_000_000_000
    → enrich_token s token b ≡ (s, resolved e)
unfolding enrich_token get missed
enrich_token-hit s token b e cached_at ttl h named readable late =
    rw (named, readable)
      (ap (missed s token b) (
        ap (fresh_row s.cache.ttl b.unix) h.0
        ∙ ap (λ t. fresh_row t b.unix (some (e, cached_at))) h.1
        ∙ fresh_row-hit ttl b.unix cached_at e late))

-- Once the upstream was called for a token, knew it, and the row was written, the token resolves to that
-- answer with no call of the upstream and nothing changed, until the row's time to live is over, if the
-- database can be read and whatever calls come between. Calls between for the token itself come before
-- that end too.
pub enrich_token-run :
    (s : Server) (token : GoString) (a b : Answers) (e : Enrichment)
    (calls : List (GoString × Answers))
    → a.fetch ≡ known e
    → a.write_ok ≡ true
    → (enrich_token s token a).0.fetches ≡ suc s.fetches
    → (token ≟ []) ≡ false
    → All (IsEarly token (row_end s a.unix)) calls
    → b.read_ok ≡ true
    → b.unix ≤ row_end s a.unix
    → enrich_token (run (enrich_token s token a).0 calls) token b
      ≡ (run (enrich_token s token a).0 calls, resolved e)
enrich_token-run s token a b e calls k ok called named early readable late =
    enrich_token-hit (run (enrich_token s token a).0 calls) token b e a.unix s.cache.ttl
      (run-HasRow calls (enrich_token s token a).0 token e a.unix s.cache.ttl
        (enrich_token-fetched s token a e k ok called) early)
      named readable late
