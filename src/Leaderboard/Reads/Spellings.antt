-- ===== src/Leaderboard/Reads/Spellings.antt =====
-- Every spelling of an address has the same statistics.
use lobster_roll.Prelude.{◌≡◌, sym, ◌∙◌, ap, Bool, List, some, GoString}
use lobster_roll.Leaderboard.Records.{StatsRecord}
use lobster_roll.Leaderboard.Reads.{reply_for, get_wallet_stats}
use lobster_roll.Watcher.Address.{normalize_address}
use lobster_roll.Watcher.Address.Canonical.{normalize_address-canonical}

module _ {ℓ} {F : Type ℓ} where
  -- An address and its normal form are answered alike.
  pub get_wallet_stats-canonical :
      (rows : List (GoString × StatsRecord F)) (read : Bool) (s t : GoString)
      → normalize_address s ≡ some t
      → get_wallet_stats rows read s ≡ get_wallet_stats rows read t
  unfolding get_wallet_stats
  get_wallet_stats-canonical rows read s t e =
      ap (reply_for rows read) (e ∙ sym (normalize_address-canonical s t e).0)
