-- ===== src/Leaderboard/History/Markets.antt =====
-- A market's state is the ledger of the activity in that market.
use mathlib.Core.Path.{subst}
use lobster_roll.Prelude.{
  ℕ, ◌≡◌, refl, ap, sym, ◌∙◌, ◌⊎◌, inl, inr, Bool, true, false, List, [], ◌∷◌, Option, none, some,
  GoString, codes, ◌≟◌, bytes_eq, lookup, lookup-insert, keep, eq_of_beq, ltb, if◌then◌else◌, ◌||◌,
  arith,
}
use lobster_roll.Float.{Float, ◌⊕◌, ◌⊖◌, nought}
use lobster_roll.Leaderboard.History.{
  Activity, Market, no_activity, stamp, trade, book, or_new, enter, enter_all,
}

-- What an activity is.
pub data Deed : Type 0 where
  buys sells redeems merges splits other : Deed

abbrev pub is_redemption : Deed → Bool
is_redemption redeems = true
is_redemption _ = false

-- Cash that leaves the wallet and is at risk, and cash that comes back.
abbrev pub is_outlay : Deed → Bool
is_outlay buys = true
is_outlay splits = true
is_outlay _ = false

abbrev pub is_proceeds : Deed → Bool
is_proceeds sells = true
is_proceeds redeems = true
is_proceeds merges = true
is_proceeds _ = false

abbrev pub never : Deed → Bool
never k = false

abbrev pub is_buy : Deed → Bool
is_buy buys = true
is_buy _ = false

abbrev pub is_sale : Deed → Bool
is_sale sells = true
is_sale _ = false

module _ {ℓ} {F : Type ℓ} ⦃d : Float F⦄ where
  unfoldable pub deed_of : Activity F → Deed
  deed_of a =
      if a.kind ≟ codes "TRADE"
      then if a.side ≟ codes "BUY" then buys else if a.side ≟ codes "SELL" then sells else other
      else if a.kind ≟ codes "REDEEM"
      then redeems
      else if a.kind ≟ codes "MERGE"
      then merges
      else if a.kind ≟ codes "SPLIT"
      then splits
      else other

  -- The activities of one kind are added up, and those of another taken off, in their order.
  unfoldable pub balance :
      (Deed → Bool) → (Deed → Bool) → (Activity F → F) → F → List (Activity F) → F
  balance plus minus amount x [] = x
  balance plus minus amount x (a ∷ acts) =
      balance plus minus amount
        (if plus (deed_of a) then x ⊕ amount a else if minus (deed_of a) then x ⊖ amount a else x)
        acts

  unfoldable pub some_redemption : Bool → List (Activity F) → Bool
  some_redemption b [] = b
  some_redemption b (a ∷ acts) = some_redemption (b || is_redemption (deed_of a)) acts

  unfoldable pub latest : ℕ → List (Activity F) → ℕ
  latest n [] = n
  latest n (a ∷ acts) = latest (if ltb n a.timestamp then a.timestamp else n) acts

  -- The market `n` is `m` with the ledger of the activities added.
  abbrev pub Ledger : Market F → List (Activity F) → Market F → Type ℓ
  Ledger m acts n =
      (n.net ≡ balance is_proceeds is_outlay (λ a. a.usdc_size) m.net acts)
      × (n.cost ≡ balance is_outlay never (λ a. a.usdc_size) m.cost acts)
      × (n.redeemed ≡ some_redemption m.redeemed acts)
      × (n.bought_shares ≡ balance is_buy never (λ a. a.size) m.bought_shares acts)
      × (n.net_shares ≡ balance is_buy is_sale (λ a. a.size) m.net_shares acts)
      × (n.last_ts ≡ latest m.last_ts acts)

  -- One market's state after its own activity.
  booked : Market F → List (Activity F) → Market F
  booked m [] = m
  booked m (a ∷ acts) = booked (book (stamp m a.timestamp) a) acts

  book-Ledger : (m : Market F) (a : Activity F) → Ledger m (a ∷ []) (book (stamp m a.timestamp) a)
  unfolding book stamp trade balance some_redemption latest deed_of
  book-Ledger m a = ground arith

  booked-Ledger : (m : Market F) (acts : List (Activity F)) → Ledger m acts (booked m acts)
  unfolding booked balance some_redemption latest
  booked-Ledger m [] = (refl, refl, refl, refl, refl, refl)
  booked-Ledger m (a ∷ acts) =
      let (net, cost, redeemed, bought, shares, last) =
        booked-Ledger (book (stamp m a.timestamp) a) acts in
      let (net1, cost1, redeemed1, bought1, shares1, last1) = book-Ledger m a in
      (
        net ∙ ap (λ x. balance is_proceeds is_outlay (λ (b : Activity F). b.usdc_size) x acts) net1,
        cost ∙ ap (λ x. balance is_outlay never (λ (b : Activity F). b.usdc_size) x acts) cost1,
        redeemed ∙ ap (λ x. some_redemption x acts) redeemed1,
        bought ∙ ap (λ x. balance is_buy never (λ (b : Activity F). b.size) x acts) bought1,
        shares ∙ ap (λ x. balance is_buy is_sale (λ (b : Activity F). b.size) x acts) shares1,
        last ∙ ap (λ x. latest x acts) last1,
      )

  market_of : Option (Market F) → List (Activity F) → Option (Market F)
  unfolding booked
  market_of o [] = o
  market_of o (a ∷ acts) = some (booked (or_new o) (a ∷ acts))

  market_of-cons :
      (o : Option (Market F)) (a : Activity F) (acts : List (Activity F))
      → market_of (some (book (stamp (or_new o) a.timestamp) a)) acts ≡ market_of o (a ∷ acts)
  unfolding market_of booked or_new
  market_of-cons o a [] = refl
  market_of-cons o a (b ∷ acts) = refl

  unfoldable pub in_market : GoString → Activity F → Bool
  in_market id a = a.condition_id ≟ id

  lookup-enter_all :
      (id : GoString) (acts : List (Activity F)) (ms : List (GoString × Market F))
      → lookup id (enter_all ms acts) ≡ market_of (lookup id ms) (keep (in_market id) acts)
  unfolding enter_all enter in_market keep market_of lookup
  lookup-enter_all id [] ms = refl
  lookup-enter_all id (a ∷ acts) ms =
      let m = book (stamp (or_new (lookup a.condition_id ms)) a.timestamp) a in
      ground (
        arith,
        lookup-enter_all id acts (enter ms a),
        lookup-insert a.condition_id id m ms,
        eq_of_beq a.condition_id id,
        market_of-cons (lookup a.condition_id ms) a (keep (in_market id) acts),
      )

  -- A market with no activity yet.
  abbrev pub blank : Market F
  blank = record {
    net = nought;
    cost = nought;
    redeemed = false;
    bought_shares = nought;
    net_shares = nought;
    last_ts = 0;
  }

  -- The market's state is the ledger of its own activity, or there is neither.
  abbrev pub Kept : List (Activity F) → Option (Market F) → Type ℓ
  Kept own o = ((own ≡ []) × (o ≡ none)) ⊎ ((m : Market F) × (o ≡ some m) × Ledger blank own m)

  market_of-Kept : (own : List (Activity F)) → Kept own (market_of none own)
  unfolding market_of or_new no_activity
  market_of-Kept [] = inl (refl, refl)
  market_of-Kept (a ∷ own) = inr (booked blank (a ∷ own), refl, booked-Ledger blank (a ∷ own))

  -- After the whole activity, a market without activity has no state, and the state of any other is the
  -- ledger of the activity with its condition id, in its order: the net cash is the proceeds of sales,
  -- redemptions and merges less the outlays of buys and splits, the cost is the outlays, the shares
  -- bought and held are those of the buys, the latter less those of the sales; the market is redeemed if
  -- one of them is a redemption, and its last time is their latest.
  pub enter_all-Kept :
      (id : GoString) (acts : List (Activity F))
      → Kept (keep (in_market id) acts) (lookup id (enter_all [] acts))
  unfolding lookup
  enter_all-Kept id acts =
      subst (Kept (keep (in_market id) acts)) (sym (lookup-enter_all id acts []))
        (market_of-Kept (keep (in_market id) acts))
