-- ===== src/Leaderboard/Watchset.antt =====
-- services/leaderboard/internal/store/store.go: the table of followed wallets and the time of the last
-- sync. A table is its rows; the statements of a transaction are done together or not at all, and
-- whether they succeed is an argument. Go's maps used as sets are lists without repetition.
pub mod Diff
pub mod Tests
use lobster_roll.Prelude.{
  ℕ, Bool, true, false, not, List, [], ◌∷◌, Option, none, some, GoString, bytes_eq, bytes_lt, has,
  keep, sort_by, delete, if◌then◌else◌, ◌&&◌,
}

pub record Delta : Type 0 where
  pub added : List GoString
  pub removed : List GoString

-- The rows are the wallet and when it was added; `last_sync` is the row of the other table.
pub record Store : Type 0 where
  pub watchset : List (GoString × ℕ)
  pub last_sync : Option ℕ

unfoldable pub is_nil : List GoString → Bool
is_nil [] = true
is_nil (w ∷ ws) = false

-- `Delta.Empty`.
unfoldable pub is_empty : Delta → Bool
unfolding is_nil
is_empty d = is_nil d.added && is_nil d.removed

unfoldable pub set_of : List GoString → List GoString
set_of [] = []
set_of (w ∷ ws) = let rest = set_of ws in if has w rest then rest else w ∷ rest

-- What is in the first list and not in the second, sorted.
unfoldable pub only_in : List GoString → List GoString → List GoString
unfolding set_of
only_in new old = sort_by bytes_lt (keep (λ w. not (has w old)) (set_of new))

unfoldable pub diff : List GoString → List GoString → Delta
unfolding only_in
diff old new = record { added = only_in new old; removed = only_in old new }

unfoldable pub keys : List (GoString × ℕ) → List GoString
keys [] = []
keys ((w, at) ∷ t) = w ∷ keys t

-- SELECT wallet … ORDER BY wallet.
unfoldable pub list_wallets : Store → List GoString
unfolding keys
list_wallets s = sort_by bytes_lt (keys s.watchset)

unfoldable pub insert_rows : ℕ → List GoString → List (GoString × ℕ) → List (GoString × ℕ)
insert_rows now [] t = t
insert_rows now (w ∷ ws) t = (w, now) ∷ insert_rows now ws t

unfoldable pub delete_rows : List GoString → List (GoString × ℕ) → List (GoString × ℕ)
delete_rows [] t = t
delete_rows (w ∷ ws) t = delete w (delete_rows ws t)

unfoldable pub write_delta : Store → Delta → ℕ → Store
unfolding insert_rows delete_rows
write_delta s d now = record s {
  watchset = delete_rows d.removed (insert_rows now d.added s.watchset);
}

-- `Replace`: `opened` if the transaction begins and the wallets can be listed, `written` if the
-- statements and the commit succeed. none for an error.
unfoldable pub replace : Store → List GoString → ℕ → Bool → Bool → Store × Option Delta
unfolding is_nil list_wallets diff is_empty write_delta
replace s wallets now opened written =
    if is_nil wallets
    then (s, some (record { added = []; removed = [] }))
    else if not opened
    then (s, none)
    else (let d = diff (list_wallets s) wallets in
        if is_empty d
        then (s, some d)
        else if not written
        then (s, none)
        else (write_delta s d now, some d))

unfoldable pub set_last_sync : Store → ℕ → Store
set_last_sync s unix = record s { last_sync = some unix }

unfoldable pub last_sync_of : Option ℕ → ℕ
last_sync_of none = 0
last_sync_of (some unix) = unix
