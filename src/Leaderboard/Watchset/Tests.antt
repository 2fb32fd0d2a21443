-- ===== src/Leaderboard/Watchset/Tests.antt =====
-- Runs of the table of followed wallets.
use lobster_roll.Prelude.{
  ◌≡◌, refl, ◌⊎◌, true, false, List, [], ◌∷◌, none, some, GoString, codes, bytes_eq, has,
  if◌then◌else◌, IsSorted, bytes_lt, ◌&&◌, sort_by, keep, bytes_beq, delete,
}
use lobster_roll.Leaderboard.Watchset.{Delta, Store, is_nil, diff, list_wallets, replace}
use lobster_roll.Leaderboard.Watchset.Diff.{
  member, changed, replace-changed, replace-member, diff-IsSorted,
}

abbrev pub store : Store
store = record { watchset = (codes "0xb", 7) ∷ (codes "0xa", 5) ∷ []; last_sync = none }

abbrev wanted : List GoString
wanted = codes "0xc" ∷ codes "0xb" ∷ codes "0xc" ∷ []

swapped :
    (list_wallets (replace store wanted 9 true true).0 ≡ codes "0xb" ∷ codes "0xc" ∷ [])
    × ((replace store wanted 9 true true).1
        ≡ some (record { added = codes "0xc" ∷ []; removed = codes "0xa" ∷ [] }))
    × ((replace store wanted 9 true false).0 ≡ store)
unfolding replace list_wallets sort_by keep has bytes_beq bytes_lt delete
swapped = (refl, refl, refl)

replace-changed_run :
    (((replace store wanted 9 true true).1 ≡ none) × ((replace store wanted 9 true true).0 ≡ store))
    ⊎ ((d : Delta) × ((replace store wanted 9 true true).1 ≡ some d)
        × (member (replace store wanted 9 true true).0 ≡ changed (member store) d))
replace-changed_run = replace-changed store wanted 9 true true

replace-member_run :
    member (replace store wanted 9 true true).0
    ≡ (if is_nil wanted then member store else λ w. has w wanted)
replace-member_run = replace-member store wanted 9

diff-IsSorted_run :
    IsSorted bytes_lt (diff (list_wallets store) wanted).added
    × IsSorted bytes_lt (diff (list_wallets store) wanted).removed
    × ((w : GoString)
        → (has w (diff (list_wallets store) wanted).added
            && has w (diff (list_wallets store) wanted).removed)
          ≡ false)
diff-IsSorted_run = diff-IsSorted (list_wallets store) wanted
