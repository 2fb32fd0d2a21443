-- ===== src/Trader/Placements.antt =====
-- services/trader/internal/store/store.go: the table of placements, by proposal id. The clock's
-- stamp is left out, which nothing reads; a failing statement is the caller's case.
use lobster_roll.Prelude.{
  ◌≡◌, ◌≢◌, Bool, true, false, List, Option, none, some, GoString, codes, ◌≟◌, bytes_eq, lookup,
  insert, delete, lookup-insert, lookup-delete, beq_refl, if◌then◌else◌, arith,
}

pub record Placement : Type 0 where
  pub order_id : GoString
  pub status : GoString

abbrev pub Placements : Type 0
Placements = List (GoString × Placement)

abbrev pub status_claimed : GoString
status_claimed = codes "claimed"

pub claim_row : Option Placement → GoString → Placements → Placements × Bool
claim_row none id t = (insert id (record { order_id = codes ""; status = status_claimed }) t, true)
claim_row (some r) id t = (t, false)

-- INSERT … ON CONFLICT DO NOTHING; true if a row was inserted.
unfoldable pub claim : GoString → Placements → Placements × Bool
unfolding claim_row
claim id t = claim_row (lookup id t) id t

pub unclaim_row : Option Placement → GoString → Placements → Placements
unclaim_row none id t = t
unclaim_row (some r) id t = if r.status ≟ status_claimed then delete id t else t

-- DELETE of the row while its status is still 'claimed'.
pub unclaim : GoString → Placements → Placements
unfolding unclaim_row
unclaim id t = unclaim_row (lookup id t) id t

pub mark_row : Option Placement → GoString → GoString → GoString → Placements → Placements
mark_row none id order_id status t = t
mark_row (some r) id order_id status t =
    insert id (record { order_id = order_id; status = status }) t

-- UPDATE of the row, if there is one.
pub mark_result : GoString → GoString → GoString → Placements → Placements
unfolding mark_row
mark_result id order_id status t = mark_row (lookup id t) id order_id status t

abbrev pub IsPlaced : GoString → Placements → Type 0
IsPlaced id t = lookup id t ≢ none

pub claim-IsPlaced : (id j : GoString) (t : Placements) → IsPlaced j t → IsPlaced j (claim id t).0
unfolding claim
claim-IsPlaced id j t p =
    ground (arith, lookup-insert id j (record { order_id = codes ""; status = status_claimed }) t)

-- A successful claim found no row, and leaves one.
pub claim-true :
    (id : GoString) (t : Placements)
    → (claim id t).1 ≡ true
    → (lookup id t ≡ none) × IsPlaced id (claim id t).0
unfolding claim
claim-true id t h = ground (
  arith,
  beq_refl id,
  lookup-insert id id (record { order_id = codes ""; status = status_claimed }) t,
)

pub mark_result-IsPlaced :
    (id order_id status j : GoString) (t : Placements)
    → IsPlaced j t
    → IsPlaced j (mark_result id order_id status t)
unfolding mark_result
mark_result-IsPlaced id order_id status j t p =
    ground (arith, lookup-insert id j (record { order_id = order_id; status = status }) t)

pub unclaim-IsPlaced :
    (id j : GoString) (t : Placements) → (id ≟ j) ≡ false → IsPlaced j t → IsPlaced j (unclaim id t)
unfolding unclaim
unclaim-IsPlaced id j t h p = ground (arith, lookup-delete id j t)

pub claim_again : (id : GoString) (t : Placements) → lookup id t ≡ none → (claim id t).1 ≡ true
unfolding claim
claim_again id t h = ground arith

pub claim_refused : (id : GoString) (t : Placements) → IsPlaced id t → (claim id t).1 ≡ false
unfolding claim
claim_refused id t h = ground arith

-- Undoing a fresh claim removes its row.
pub unclaim-claim :
    (id : GoString) (t : Placements)
    → (claim id t).1 ≡ true
    → lookup id (unclaim id (claim id t).0) ≡ none
unfolding claim unclaim
unclaim-claim id t h =
    let row : Placement = record { order_id = codes ""; status = status_claimed } in
    ground (
      arith,
      beq_refl id,
      beq_refl status_claimed,
      lookup-insert id id row t,
      lookup-delete id id (insert id row t),
    )
