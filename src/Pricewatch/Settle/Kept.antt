-- ===== src/Pricewatch/Settle/Kept.antt =====
-- What a settling pass does to each row.
use lobster_roll.Prelude.{
  ℕ, ◌-◌, ◌<◌, ◌≤◌, ◌≡◌, ◌⊎◌, Bool, true, false, List, [], ◌∷◌, Option, none, some, GoString,
  bytes_eq, ◌&&◌, if◌then◌else◌, All,
}
use lobster_roll.Float.{Float, ◌⊖◌}
use lobster_roll.Pricewatch.Snapshots.{Row, nearest}
use lobster_roll.Pricewatch.Settle.{Trade, ClvRow, same_key, value_from}

-- Two lists of one length, related at every position.
abbrev pub Pairs {ℓ κ} : {A : Type ℓ} → (A → A → Type κ) → List A → List A → Type κ
Pairs R [] [] = Unit
Pairs R (x ∷ xs) (y ∷ ys) = R x y × Pairs R xs ys
Pairs R _ _ = ⊥ × Unit {κ}

module _ {ℓ} {F : Type ℓ} where
  -- No later row has the trade's key.
  abbrev pub Apart : Trade F → List (ClvRow F) → Type 0
  Apart t rows = All (λ r. same_key r.trade t ≡ false) rows

  -- No two rows have one key: the table's primary key.
  unfoldable pub IsKeyed : List (ClvRow F) → Type 0
  IsKeyed [] = Unit {0}
  IsKeyed (r ∷ rows) = Apart r.trade rows × IsKeyed rows

  -- The trade's key is none of the trades'.
  NoneOf : Trade F → List (Trade F) → Type 0
  NoneOf t ts = All (λ u. same_key t u ≡ false) ts

module _ {ℓ} {F : Type ℓ} ⦃d : Float F⦄ (end_date : GoString → Option ℕ) (read_ok : GoString → Bool)
    (write_ok : Trade F → Bool) (buffer now : ℕ) (snapshots : List (Row F)) where
  -- A row that a pass can settle: it is not settled, its market's end is known and past, the snapshot
  -- nearest to the close is there and can be read, and the value can be written.
  abbrev pub Due : ClvRow F → ℕ → Row F → Type ℓ
  Due r end snap =
      (r.settled ≡ false)
      × (end_date r.trade.token_id ≡ some end)
      × (0 < end)
      × (end ≤ now)
      × (read_ok r.trade.token_id ≡ true)
      × (nearest r.trade.token_id (end - buffer) snapshots ≡ some snap)
      × (write_ok r.trade ≡ true)

  -- What a trade gained on the price at the close: a buy when it rose, a sell when it fell.
  abbrev pub gain : Trade F → Row F → F
  gain t snap = if t.buy then snap.mid ⊖ t.entry else t.entry ⊖ snap.mid

  -- A row that is due is settled at its gain, and every other row stays.
  abbrev pub Settled : ClvRow F → ClvRow F → Type ℓ
  Settled r s =
      ((end : ℕ) × (snap : Row F) × Due r end snap
        × (s ≡ record r { clv = gain r.trade snap; settled = true }))
      ⊎ (((end : ℕ) → (snap : Row F) → ¬ Due r end snap) × (s ≡ r))

  -- A trade's write to one row.
  wrote : Trade F → Option F → ClvRow F → ClvRow F
  wrote t none r = r
  wrote t (some v) r =
      if write_ok t && same_key r.trade t then record r { clv = v; settled = true } else r

  value_of : Trade F → Option F
  value_of t = value_from end_date read_ok write_ok buffer now snapshots t (end_date t.token_id)

  wrote_all : List (Trade F) → ClvRow F → ClvRow F
  unfolding wrote value_of
  wrote_all [] r = r
  wrote_all (t ∷ ts) r = wrote_all ts (wrote t (value_of t) r)
