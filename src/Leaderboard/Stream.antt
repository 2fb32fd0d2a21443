-- ===== src/Leaderboard/Stream.antt =====
-- services/leaderboard/internal/server: the streams of watchset changes. A subscriber is the channel
-- that its stream reads; `active` tells whether the server's map still has it, and `lost` whether its
-- signal is closed. The mutex makes subscribing, leaving and broadcasting one step each.
pub mod Queues
pub mod Worlds
pub mod Updates
pub mod Converges
mod Tests
use lobster_roll.Prelude.{
  ℕ, ◌+◌, Bool, true, false, List, [], ◌∷◌, ◌++◌, Option, none, some, nat_eq, ltb, length, lookup,
  insert, GoString, if◌then◌else◌,
}
use lobster_roll.Leaderboard.Watchset.{Delta, Store, is_empty, is_nil, list_wallets}

abbrev pub sub_buffer : ℕ
sub_buffer = 16

pub record Subscriber : Type 0 where
  pub ch : List Delta
  pub active : Bool
  pub lost : Bool

pub record Server : Type 0 where
  pub subs : List (ℕ × Subscriber)
  pub next_id : ℕ

unfoldable pub new_server : Server
new_server = record { subs = []; next_id = 0 }

-- The new subscriber's id with the server.
unfoldable pub subscribe : Server → Server × ℕ
subscribe s = (
  record {
    subs = insert s.next_id (record { ch = []; active = true; lost = false }) s.subs;
    next_id = s.next_id + 1;
  },
  s.next_id,
)

unfoldable pub left : Option Subscriber → ℕ → List (ℕ × Subscriber) → List (ℕ × Subscriber)
left none id subs = subs
left (some sub) id subs = insert id (record sub { active = false }) subs

unfoldable pub unsubscribe : Server → ℕ → Server
unfolding left
unsubscribe s id = record s { subs = left (lookup id s.subs) id s.subs }

-- One subscriber's part of a broadcast: the update, or the end of the subscription.
unfoldable pub offer : Delta → Subscriber → Subscriber
offer upd sub =
    if sub.active
    then if ltb (length sub.ch) sub_buffer
      then record sub { ch = sub.ch ++ upd ∷ [] }
      else record sub { active = false; lost = true }
    else sub

unfoldable pub offer_all : Delta → List (ℕ × Subscriber) → List (ℕ × Subscriber)
unfolding offer
offer_all upd [] = []
offer_all upd ((id, sub) ∷ rest) = (id, offer upd sub) ∷ offer_all upd rest

-- `Broadcast`.
unfoldable pub broadcast : Server → Delta → Server
unfolding offer_all is_empty
broadcast s upd = if is_empty upd then s else record s { subs = offer_all upd s.subs }

unfoldable pub count_active : List (ℕ × Subscriber) → ℕ
count_active [] = 0
count_active ((id, sub) ∷ rest) = let n = count_active rest in if sub.active then n + 1 else n

-- `subscriberCount`.
unfoldable pub subscriber_count : Server → ℕ
unfolding count_active
subscriber_count s = count_active s.subs

-- What StreamWatchset sends first: nothing for an empty set.
unfoldable pub snapshot_update : Store → Option Delta
snapshot_update s =
    let wallets = list_wallets s in
    if is_nil wallets then none else some (record { added = wallets; removed = [] })

unfoldable pub taken : Subscriber → List Delta → Option (Delta × Subscriber)
taken sub [] = none
taken sub (upd ∷ rest) = some (upd, record sub { ch = rest })

-- The update that a stream takes from its channel next, with the channel after it.
unfoldable pub next_update : Subscriber → Option (Delta × Subscriber)
unfolding taken
next_update sub = taken sub sub.ch
