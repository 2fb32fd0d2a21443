-- ===== src/Leaderboard/Stream/Tests.antt =====
-- A run of a stream: it joins while a delta waits, takes the snapshot, and reads the delta after it.
use lobster_roll.Prelude.{
  ◌≡◌, refl, true, false, List, [], ◌∷◌, none, some, GoString, codes, bytes_eq, nat_eq, lookup,
  sort_by, keep, has, bytes_lt, bytes_beq, insert,
}
use lobster_roll.Leaderboard.Watchset.{Delta, replace}
use lobster_roll.Leaderboard.Watchset.Diff.{member, changed}
use lobster_roll.Leaderboard.Watchset.Tests.{store}
use lobster_roll.Leaderboard.Stream.{
  Subscriber, new_server, subscribe, broadcast, snapshot_update, next_update,
}
use lobster_roll.Leaderboard.Stream.Worlds.{
  World, Reach, here, after, syncs, broadcasts, joins, snapshots, receives, view_of,
}
use lobster_roll.Leaderboard.Stream.Converges.{Reach-view}

abbrev wanted : List GoString
wanted = codes "0xc" ∷ []

abbrev delta : Delta
delta = record { added = codes "0xc" ∷ []; removed = codes "0xa" ∷ codes "0xb" ∷ [] }

abbrev start : World
start = record { store = store; pending = none; server = new_server; stream = none; view = none }

abbrev synced : World
synced = record start {
  store = (replace store wanted 9 true true).0;
  pending = (replace store wanted 9 true true).1;
}

abbrev joined : World
joined = record synced { server = (subscribe new_server).0; stream = some (subscribe new_server).1 }

abbrev shown : World
shown = record joined { view = some (view_of (snapshot_update joined.store)) }

abbrev announced : World
announced = record shown { server = broadcast shown.server delta; pending = none }

abbrev waiting : Subscriber
waiting = record { ch = delta ∷ []; active = true; lost = false }

abbrev drained : Subscriber
drained = record waiting { ch = [] }

abbrev read : World
read = record announced {
  server = record announced.server { subs = (0, drained) ∷ [] };
  view = some (changed (view_of (snapshot_update joined.store)) delta);
}

path : Reach start read
unfolding replace broadcast subscribe new_server next_update sort_by keep has bytes_lt bytes_beq
    lookup insert
path =
    after
      (after
        (after (after (after here (syncs start wanted 9 true true refl)) (joins synced refl))
          (snapshots joined 0 refl refl))
        (broadcasts shown delta refl))
      (receives announced 0 waiting drained delta (view_of (snapshot_update joined.store)) refl refl
        refl refl)

Reach-view_example : changed (view_of (snapshot_update joined.store)) delta ≡ member read.store
unfolding lookup subscribe new_server
Reach-view_example =
    Reach-view start read 0 drained (changed (view_of (snapshot_update joined.store)) delta) refl
      refl refl path refl refl refl refl refl refl
