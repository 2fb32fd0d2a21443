-- ===== src/Watcher/Feeder/Resync.antt =====
-- What a round of the feeder does to the watched set.
use lobster_roll.Prelude.{
  ℕ, ◌≡◌, true, false, List, [], ◌∷◌, Option, none, some, GoString, arith, All,
}
use lobster_roll.Watcher.Address.{apply, watched}
use lobster_roll.Watcher.Address.Watched.{names, watched-apply}
use lobster_roll.Watcher.Feeder.{Feeder, Update, stream, round}

module _ (hex_to_address : GoString → List ℕ) where
  -- No change of the stream removes the address.
  abbrev pub Spares : List ℕ → List Update → Type 0
  Spares a us = All (λ u. names hex_to_address a u.removed ≡ false) us

  stream-watched :
      (set : List (List ℕ)) (us : List Update) (a : List ℕ)
      → Spares a us
      → watched set a ≡ true
      → watched (stream hex_to_address set us) a ≡ true
  unfolding stream
  stream-watched set [] a s h = h
  stream-watched set (u ∷ us) a (p, s) h =
      stream-watched (apply hex_to_address set u.added u.removed) us a s
        (ground (arith, watched-apply hex_to_address set u.added u.removed a))

  -- A round never drops an address that the stream does not remove: an address that was watched is
  -- watched after the snapshot and the stream, also when the snapshot no longer has it.
  pub round-watched :
      (f : Feeder) (reply : Option (List GoString)) (us : List Update) (a : List ℕ)
      → Spares a us
      → watched f.set a ≡ true
      → watched (round hex_to_address f reply us).set a ≡ true
  unfolding round names
  round-watched f none us a s h = h
  round-watched f (some wallets) us a s h =
      stream-watched (apply hex_to_address f.set wallets []) us a s
        (ground (arith, watched-apply hex_to_address f.set wallets [] a))
