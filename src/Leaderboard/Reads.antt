-- ===== src/Leaderboard/Reads.antt =====
-- services/leaderboard/internal/server/server.go: what the server answers of the followed set and of a
-- wallet's statistics. Whether the database can be read is an argument; the reply has the row's fields.
pub mod Spellings
use lobster_roll.Prelude.{
  ℕ, Bool, true, false, not, List, [], ◌∷◌, Option, none, some, GoString, lookup, bytes_eq,
  if◌then◌else◌,
}
use lobster_roll.Leaderboard.Watchset.{Store, list_wallets, last_sync_of}
use lobster_roll.Leaderboard.Records.{StatsRecord, get_stats}
use lobster_roll.Watcher.Address.{normalize_address}

-- `GetWatchset`; none for an error.
unfoldable pub get_watchset : Store → Bool → Bool → Option (List GoString × ℕ)
get_watchset s listed synced =
    if not listed
    then none
    else if not synced
    then none
    else some (list_wallets s, last_sync_of s.last_sync)

pub data StatsReply {ℓ} (F : Type ℓ) : Type ℓ where
  invalid_wallet read_failed : StatsReply F
  no_stats : GoString → StatsReply F
  found : StatsRecord F → StatsReply F

module _ {ℓ} {F : Type ℓ} where
  unfoldable pub reply_of : GoString → Option (StatsRecord F) → StatsReply F
  reply_of wallet none = no_stats wallet
  reply_of wallet (some r) = found r

  unfoldable pub reply_for : List (GoString × StatsRecord F) → Bool → Option GoString → StatsReply F
  unfolding reply_of
  reply_for rows read none = invalid_wallet
  reply_for rows read (some wallet) =
      if read then reply_of wallet (get_stats wallet rows) else read_failed

  -- `GetWalletStats`.
  unfoldable pub get_wallet_stats : List (GoString × StatsRecord F) → Bool → GoString → StatsReply F
  unfolding reply_for
  get_wallet_stats rows read wallet = reply_for rows read (normalize_address wallet)
