-- ===== src/Pricewatch/Settle/Averages.antt =====
-- What WalletCLV answers of a wallet.
use lobster_roll.Prelude.{
  ◌≡◌, refl, ap, ◌∙◌, Bool, true, List, [], ◌∷◌, Option, none, some, GoString, ◌≟◌, bytes_eq,
  eq_of_beq, ltb, length, lookup, lookup-insert, has, if◌then◌else◌, arith,
}
use lobster_roll.Pricewatch.Settle.{
  ClvRow, ClvAgg, settled_values, add_wallet, add_wallets, all_read, wallet_clv,
}

module _ {ℓ} {F : Type ℓ} (avg : List F → F) where
  -- The aggregate of a wallet with these values.
  unfoldable pub agg_of : List F → Option (ClvAgg F)
  agg_of values =
      if ltb 0 (length values)
      then some (record { avg_clv = avg values; n = length values })
      else none

  lookup-add_wallet :
      (w k : GoString) (values : List F) (out : List (GoString × ClvAgg F))
      → lookup k (add_wallet avg w values out) ≡ (
          if ltb 0 (length values)
          then if w ≟ k then agg_of values else lookup k out
          else lookup k out)
  unfolding add_wallet agg_of
  lookup-add_wallet w k values out =
      ground (arith, lookup-insert w k (record { avg_clv = avg values; n = length values }) out)

  -- The entry of a wallet after the entries of some are added.
  entry : GoString → List (ClvRow F) → Option (ClvAgg F) → Option (ClvAgg F)
  entry k rows old =
      if ltb 0 (length (settled_values k rows)) then agg_of (settled_values k rows) else old

  entry-twice :
      (k : GoString) (rows : List (ClvRow F)) (old : Option (ClvAgg F))
      → entry k rows (entry k rows old) ≡ entry k rows old
  unfolding entry
  entry-twice k rows old = ground arith

  entry-none :
      (k : GoString) (rows : List (ClvRow F)) → entry k rows none ≡ agg_of (settled_values k rows)
  unfolding entry agg_of
  entry-none k rows = ground arith

  lookup-add_one :
      (w k : GoString) (rows : List (ClvRow F)) (out : List (GoString × ClvAgg F))
      → lookup k (add_wallet avg w (settled_values w rows) out)
        ≡ (if w ≟ k then entry k rows (lookup k out) else lookup k out)
  unfolding entry
  lookup-add_one w k rows out = ground (
    arith,
    eq_of_beq w k,
    ap (λ v. settled_values v rows),
    lookup-add_wallet w k (settled_values w rows) out,
  )

  lookup-add_wallets :
      (ws : List GoString) (k : GoString) (rows : List (ClvRow F))
      (out : List (GoString × ClvAgg F))
      → lookup k (add_wallets avg ws rows out)
        ≡ (if has k ws then entry k rows (lookup k out) else lookup k out)
  unfolding add_wallets has
  lookup-add_wallets [] k rows out = refl
  lookup-add_wallets (w ∷ ws) k rows out = ground (
    arith,
    lookup-add_wallets ws k rows (add_wallet avg w (settled_values w rows) out),
    lookup-add_one w k rows out,
    entry-twice k rows (lookup k out),
  )

  -- When the table can be read, each wallet asked for has the average and the number of its settled
  -- trades, if it has any, and no other wallet has an entry.
  pub lookup-wallet_clv :
      (opened : Bool) (read_ok : GoString → Bool) (wallets : List GoString) (rows : List (ClvRow F))
      → opened ≡ true
      → all_read read_ok wallets ≡ true
      → (out : List (GoString × ClvAgg F)) × (wallet_clv avg opened read_ok wallets rows ≡ some out)
        × ((k : GoString)
            → lookup k out ≡ (if has k wallets then agg_of (settled_values k rows) else none))
  unfolding wallet_clv lookup
  lookup-wallet_clv opened read_ok wallets rows o r = (
    add_wallets avg wallets rows [],
    rw (o, r) refl,
    λ k.
        lookup-add_wallets wallets k rows []
        ∙ ap (λ a. if has k wallets then a else none) (entry-none k rows),
  )
