-- ===== src/Enrichment.antt =====
-- services/enrichment/internal/server and cache: what a token stands for, from a cache of rows that
-- expire, a memory of unknown tokens, and the upstream. The row's times are unix seconds, the memory's
-- are nanoseconds; `fetches` counts the calls of the upstream. A call is one step: the fetch that
-- single-flight shares between waiting calls is made by the first of them.
pub mod Rows
pub mod Remembers
mod Tests
use lobster_roll.Prelude.{
  ℕ, suc, ◌+◌, ◌/◌, Bool, true, false, not, List, [], ◌∷◌, Option, none, some, GoString, ◌≟◌,
  bytes_eq, ltb, leb, length, lookup, insert, delete, keep, if◌then◌else◌, ◌&&◌,
}

pub record Enrichment : Type 0 where
  pub market_question : GoString
  pub outcome : GoString
  pub market_slug : GoString
  pub condition_id : GoString
  pub end_date_unix : ℕ

-- The rows with the time they were cached, and the time to live in nanoseconds, 0 for none.
pub record Cache : Type 0 where
  pub rows : List (GoString × (Enrichment × ℕ))
  pub ttl : ℕ

unfoldable pub fresh_row : ℕ → ℕ → Option (Enrichment × ℕ) → Option Enrichment
fresh_row ttl unix none = none
fresh_row ttl unix (some (e, cached_at)) =
    if ltb 0 ttl && ltb (cached_at + ttl / 1_000_000_000) unix then none else some e

-- `Get`.
unfoldable pub get : Cache → ℕ → GoString → Option Enrichment
unfolding fresh_row
get c unix token = fresh_row c.ttl unix (lookup token c.rows)

unfoldable pub put : Cache → ℕ → GoString → Enrichment → Cache
put c unix token e = record c { rows = insert token (e, unix) c.rows }

abbrev pub neg_cache_ttl : ℕ
neg_cache_ttl = 3_600_000_000_000

abbrev pub neg_sweep_threshold : ℕ
neg_sweep_threshold = 1_024

pub record Server : Type 0 where
  pub cache : Cache
  pub neg_tok : List (GoString × ℕ)
  pub fetches : ℕ

-- What the upstream answers.
pub data Fetched : Type 0 where
  fetch_error unknown_token : Fetched
  known : Enrichment → Fetched

-- What the outside answers during a call, and its clocks: `unix` is the cache's, `at` the server's.
pub record Answers : Type 0 where
  pub read_ok : Bool
  pub write_ok : Bool
  pub fetch : Fetched
  pub unix : ℕ
  pub at : ℕ

pub data Reply : Type 0 where
  invalid_argument internal_error not_found unavailable : Reply
  resolved : Enrichment → Reply

unfoldable pub remembered : Server → ℕ → GoString → Option ℕ → Server × Bool
remembered s at token none = (s, false)
remembered s at token (some exp) =
    if not (ltb at exp) then (record s { neg_tok = delete token s.neg_tok }, false) else (s, true)

-- `negativelyCached`.
unfoldable pub negatively_cached : Server → ℕ → GoString → Server × Bool
unfolding remembered
negatively_cached s at token = remembered s at token (lookup token s.neg_tok)

-- `cacheNegative`.
unfoldable pub cache_negative : Server → ℕ → GoString → Server
cache_negative s at token =
    let swept =
      if leb neg_sweep_threshold (length s.neg_tok)
      then keep (λ r. ltb at r.1) s.neg_tok
      else s.neg_tok in
    record s { neg_tok = insert token (at + neg_cache_ttl) swept }

unfoldable pub took : Server → GoString → Answers → Fetched → Server × Reply
unfolding cache_negative put
took s token a fetch_error = (s, unavailable)
took s token a unknown_token = (cache_negative s a.at token, not_found)
took s token a (known e) =
    (if a.write_ok then record s { cache = put s.cache a.unix token e } else s, resolved e)

unfoldable pub resolve : Server × Bool → GoString → Answers → Server × Reply
unfolding took
resolve (s, unknown) token a =
    if unknown then (s, not_found) else took (record s { fetches = suc s.fetches }) token a a.fetch

unfoldable pub missed : Server → GoString → Answers → Option Enrichment → Server × Reply
unfolding resolve negatively_cached
missed s token a (some e) = (s, resolved e)
missed s token a none = resolve (negatively_cached s a.at token) token a

-- `EnrichToken`.
unfoldable pub enrich_token : Server → GoString → Answers → Server × Reply
unfolding missed get
enrich_token s token a =
    if token ≟ []
    then (s, invalid_argument)
    else if not a.read_ok
    then (s, internal_error)
    else missed s token a (get s.cache a.unix token)
