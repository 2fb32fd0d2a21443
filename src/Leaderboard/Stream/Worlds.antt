-- ===== src/Leaderboard/Stream/Worlds.antt =====
-- The sync, the server and one stream with its client, as a step relation; and the sets that updates
-- make.
use mathlib.Core.Path.{fun_ext}
use lobster_roll.Prelude.{
  ℕ, ◌≡◌, refl, inl, inr, Bool, true, false, List, [], ◌∷◌, ◌++◌, Option, none, some, GoString,
  bytes_eq, nat_eq, has, lookup, insert, if◌then◌else◌, arith,
}
use lobster_roll.Leaderboard.Watchset.{Delta, Store, is_nil, list_wallets, replace}
use lobster_roll.Leaderboard.Watchset.Diff.{member, changed, member-list_wallets, nil-cases}
use lobster_roll.Leaderboard.Stream.{
  Subscriber, Server, subscribe, unsubscribe, broadcast, snapshot_update, next_update,
}

-- A set after a series of updates.
unfoldable pub replay : (GoString → Bool) → List Delta → GoString → Bool
replay m [] = m
replay m (d ∷ ds) = replay (changed m d) ds

-- What a series of updates says of a wallet: the last word on it.
last_word : List Delta → GoString → Option Bool
last_word [] w = none
last_word (d ∷ ds) w = elim (last_word ds w) [
  | some b ↦ some b
  | none ↦ if has w d.removed then some false else if has w d.added then some true else none
]

said : Option Bool → Bool → Bool
said none b = b
said (some a) b = a

replay-last_word :
    (ds : List Delta) (m : GoString → Bool) (w : GoString)
    → replay m ds w ≡ said (last_word ds w) (m w)
unfolding replay last_word said changed
replay-last_word [] m w = refl
replay-last_word (d ∷ ds) m w = ground (arith, replay-last_word ds (changed m d) w)

-- Updates that a set already has change nothing when they come again.
pub replay-replay : (m : GoString → Bool) (ds : List Delta) → replay (replay m ds) ds ≡ replay m ds
unfolding said
replay-replay m ds =
    fun_ext λ w. ground (arith, replay-last_word ds (replay m ds) w, replay-last_word ds m w)

pub replay-append :
    (m : GoString → Bool) (ds es : List Delta) → replay m (ds ++ es) ≡ replay (replay m ds) es
unfolding replay
replay-append m [] es = refl
replay-append m (d ∷ ds) es = replay-append (changed m d) ds es

-- The set of a client that took the snapshot into an empty set.
unfoldable pub view_of : Option Delta → GoString → Bool
view_of none = λ w. false
view_of (some d) = changed (λ w. false) d

pub view_of-snapshot_update : (s : Store) → view_of (snapshot_update s) ≡ member s
unfolding snapshot_update view_of changed is_nil has
view_of-snapshot_update s = elim (nil-cases (list_wallets s)) [
  | inl e ↦ fun_ext λ w. ground (arith, e, member-list_wallets s w)
  | inr e ↦ fun_ext λ w. ground (arith, e, member-list_wallets s w)
]

-- The store, the syncer's delta that waits for its broadcast, the server, and one stream: its id once it
-- has subscribed, and its client's set once it has the snapshot.
pub record World : Type 0 where
  pub store : Store
  pub pending : Option Delta
  pub server : Server
  pub stream : Option ℕ
  pub view : Option (GoString → Bool)

pub data Step : World → World → Type 0 where
  syncs :
      (w : World) (wallets : List GoString) (now : ℕ) (opened written : Bool)
      → w.pending ≡ none
      → Step w (record w {
        store = (replace w.store wallets now opened written).0;
        pending = (replace w.store wallets now opened written).1;
      })
  broadcasts :
      (w : World) (d : Delta)
      → w.pending ≡ some d
      → Step w (record w { server = broadcast w.server d; pending = none })
  joins :
      (w : World)
      → w.stream ≡ none
      → Step w (record w { server = (subscribe w.server).0; stream = some (subscribe w.server).1 })
  snapshots :
      (w : World) (id : ℕ)
      → w.stream ≡ some id
      → w.view ≡ none
      → Step w (record w { view = some (view_of (snapshot_update w.store)) })
  receives :
      (w : World) (id : ℕ) (sub rest : Subscriber) (upd : Delta) (v : GoString → Bool)
      → w.stream ≡ some id
      → lookup id w.server.subs ≡ some sub
      → next_update sub ≡ some (upd, rest)
      → w.view ≡ some v
      → Step w (record w {
        server = record w.server { subs = insert id rest w.server.subs };
        view = some (changed v upd);
      })
  other_joins : (w : World) → Step w (record w { server = (subscribe w.server).0 })
  leaves : (w : World) (id : ℕ) → Step w (record w { server = unsubscribe w.server id })

pub data Reach (w : World) : World → Type 0 where
  here : Reach w w
  after : {x y : World} → Reach w x → Step x y → Reach w y

unfoldable pub listed : Option Delta → List Delta
listed none = []
listed (some d) = d ∷ []
