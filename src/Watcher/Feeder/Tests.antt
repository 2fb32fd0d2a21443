-- ===== src/Watcher/Feeder/Tests.antt =====
-- A wallet leaves the followed set while the stream is down, and is watched after the next round.
use lobster_roll.Watcher.Backoff.{delay}
use lobster_roll.Prelude.{
  ℕ, ◌≡◌, refl, true, List, [], ◌∷◌, none, some, GoString, codes, has, bytes_beq,
}
use lobster_roll.Watcher.Address.{watched}
use lobster_roll.Watcher.Feeder.{Feeder, round}
use lobster_roll.Watcher.Feeder.Resync.{round-watched}

abbrev address : GoString → List ℕ
address s = s

abbrev gone : GoString
gone = codes "0x00000000000000000000000000000000000000aa"

abbrev kept : GoString
kept = codes "0x00000000000000000000000000000000000000bb"

abbrev feeder : Feeder
feeder = record { set = gone ∷ kept ∷ []; ready_closed = true; attempt = 0; waited = 0 }

round-watched_example : watched (round address feeder (some (kept ∷ [])) []).set gone ≡ true
unfolding watched has bytes_beq
round-watched_example = round-watched address feeder (some (kept ∷ [])) [] gone tt refl

-- A failed snapshot waits longer each time.
waits :
    ((round address (round address feeder none []) none []).waited ≡ 2_000_000_000)
    × ((round address feeder none []).waited ≡ 1_000_000_000)
unfolding round delay
waits = (refl, refl)
