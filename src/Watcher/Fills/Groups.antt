-- ===== src/Watcher/Fills/Groups.antt =====
-- Aggregation by transaction conserves amounts, and gives one trade for each key.
use lobster_roll.Prelude.{
  ℕ, ◌+◌, ◌≡◌, refl, sym, ◌∙◌, Bool, not, ◌≟◌, ◌&&◌, true, false, List, [], ◌∷◌, bytes_eq, beq_refl,
  eq_of_beq, beq_of_eq, All, IsSorted, IsWeakOrder, bytes_lt-IsWeakOrder, bytes_lt-connex, sort_by,
  sort_by-IsSorted, length-sort_by, length, map, arith, if◌then◌else◌, if_cases,
}
use lobster_roll.Watcher.Fills.{
  Fill, Trade, same_key, merge, join, group_fills, trade_before, trade_from_fill, aggregate_by_tx,
}

-- The fills are of one transaction, wallet, token and side.
unfoldable pub one_key : Fill → Fill → Bool
one_key f g =
    f.tx_hash ≟ g.tx_hash
    && f.wallet ≟ g.wallet
    && f.token_id ≟ g.token_id
    && (if f.buy then g.buy else not g.buy)

agrees : (f g : Fill) → same_key f g ≡ one_key f g
unfolding same_key one_key
agrees f g = refl

-- What the fills of one key come to.
pub usdc_of_key : Fill → List Fill → ℕ
usdc_of_key k [] = 0
usdc_of_key k (f ∷ fs) = (if one_key k f then f.usdc else 0) + usdc_of_key k fs

pub shares_of_key : Fill → List Fill → ℕ
shares_of_key k [] = 0
shares_of_key k (f ∷ fs) = (if one_key k f then f.shares else 0) + shares_of_key k fs

-- Equality of keys, as an equation to split on.
one_key_trans : (k g f : Fill) → one_key g f ≡ true → one_key k g ≡ one_key k f
unfolding one_key
one_key_trans k g f h = ground (
  arith,
  eq_of_beq g.tx_hash f.tx_hash,
  eq_of_beq g.wallet f.wallet,
  eq_of_beq g.token_id f.token_id,
)

one_key-merge : (k g f : Fill) → one_key k (merge g f) ≡ one_key k g
unfolding one_key merge
one_key-merge k g f = refl

one_key_refl : (f : Fill) → one_key f f ≡ true
unfolding one_key
one_key_refl f = ground (arith, beq_refl f.tx_hash, beq_refl f.wallet, beq_refl f.token_id)

merge-usdc : (g f : Fill) → (merge g f).usdc ≡ g.usdc + f.usdc
unfolding merge
merge-usdc g f = refl

merge-shares : (g f : Fill) → (merge g f).shares ≡ g.shares + f.shares
unfolding merge
merge-shares g f = refl

usdc_of_key-join :
    (k f : Fill) (gs : List Fill)
    → usdc_of_key k (join f gs) ≡ (if one_key k f then f.usdc else 0) + usdc_of_key k gs
unfolding usdc_of_key join
usdc_of_key-join k f [] = refl
usdc_of_key-join k f (g ∷ gs) = ground (
  arith,
  agrees g f,
  usdc_of_key-join k f gs,
  one_key-merge k g f,
  one_key_trans k g f,
  merge-usdc g f,
)

shares_of_key-join :
    (k f : Fill) (gs : List Fill)
    → shares_of_key k (join f gs) ≡ (if one_key k f then f.shares else 0) + shares_of_key k gs
unfolding shares_of_key join
shares_of_key-join k f [] = refl
shares_of_key-join k f (g ∷ gs) = ground (
  arith,
  agrees g f,
  shares_of_key-join k f gs,
  one_key-merge k g f,
  one_key_trans k g f,
  merge-shares g f,
)

of_key-group_fills :
    (k : Fill) (fs gs : List Fill)
    → (usdc_of_key k (group_fills gs fs) ≡ usdc_of_key k fs + usdc_of_key k gs)
      × (shares_of_key k (group_fills gs fs) ≡ shares_of_key k fs + shares_of_key k gs)
unfolding group_fills usdc_of_key shares_of_key
of_key-group_fills k [] gs = omega arith
of_key-group_fills k (f ∷ fs) gs =
    omega (
      arith,
      of_key-group_fills k fs (join f gs),
      usdc_of_key-join k f gs,
      shares_of_key-join k f gs,
    )

-- No two groups of the list have one key.
abbrev pub Apart : List Fill → Type 0
Apart [] = Unit {0}
Apart (g ∷ gs) = All (λ h. one_key g h ≡ false) gs × Apart gs

join-All :
    (k f : Fill) (gs : List Fill)
    → one_key k f ≡ false
    → All (λ h. one_key k h ≡ false) gs
    → All (λ h. one_key k h ≡ false) (join f gs)
unfolding join
join-All k f [] h a = (h, tt)
join-All k f (g ∷ gs) h (p, a) =
    if_cases (All (λ x. one_key k x ≡ false)) (same_key g f) (merge g f ∷ gs) (g ∷ join f gs)
      (λ _. (one_key-merge k g f ∙ p, a)) (λ _. (p, join-All k f gs h a))

merge-All :
    (g f : Fill) (gs : List Fill)
    → All (λ h. one_key g h ≡ false) gs
    → All (λ h. one_key (merge g f) h ≡ false) gs
unfolding one_key merge
merge-All g f [] a = tt
merge-All g f (x ∷ gs) (p, a) = (p, merge-All g f gs a)

join-Apart : (f : Fill) (gs : List Fill) → Apart gs → Apart (join f gs)
unfolding join
join-Apart f [] a = (tt, tt)
join-Apart f (g ∷ gs) (p, a) =
    if_cases Apart (same_key g f) (merge g f ∷ gs) (g ∷ join f gs) (λ _. (merge-All g f gs p, a))
      (λ ne. (join-All g f gs (sym (agrees g f) ∙ ne) p, join-Apart f gs a))

group_fills-Apart : (fs gs : List Fill) → Apart gs → Apart (group_fills gs fs)
unfolding group_fills
group_fills-Apart [] gs a = a
group_fills-Apart (f ∷ fs) gs a = group_fills-Apart fs (join f gs) (join-Apart f gs a)

usdc_of_key-nil : (k : Fill) → usdc_of_key k [] ≡ 0
unfolding usdc_of_key
usdc_of_key-nil k = refl

shares_of_key-nil : (k : Fill) → shares_of_key k [] ≡ 0
unfolding shares_of_key
shares_of_key-nil k = refl

-- For every key, grouping keeps the sum of the fills' USDC and the sum of their shares, and no two
-- groups have one key: the fills of a wallet, token, side and transaction become one group.
pub group_fills-conserves :
    (k : Fill) (fs : List Fill)
    → (usdc_of_key k (group_fills [] fs) ≡ usdc_of_key k fs)
      × (shares_of_key k (group_fills [] fs) ≡ shares_of_key k fs)
      × Apart (group_fills [] fs)
group_fills-conserves k fs =
    let (u, s) = of_key-group_fills k fs [] in
    (
      omega (arith, u, usdc_of_key-nil k),
      omega (arith, s, shares_of_key-nil k),
      group_fills-Apart fs [] tt,
    )

trade_before-asymm : (a b : Trade) → trade_before a b ≡ true → trade_before b a ≡ false
unfolding trade_before
trade_before-asymm a b h = ground (
  arith,
  bytes_lt-IsWeakOrder.asymm a.tx_hash b.tx_hash,
  eq_of_beq a.tx_hash b.tx_hash,
  beq_of_eq b.tx_hash a.tx_hash,
  eq_of_beq b.tx_hash a.tx_hash,
  beq_of_eq a.tx_hash b.tx_hash,
)

trade_before-not_trans :
    (a b c : Trade) → trade_before b a ≡ false → trade_before c b ≡ false → trade_before c a ≡ false
unfolding trade_before
trade_before-not_trans a b c h k = ground (
  arith,
  bytes_lt-IsWeakOrder.not_trans a.tx_hash b.tx_hash c.tx_hash,
  bytes_lt-connex a.tx_hash b.tx_hash,
  bytes_lt-connex b.tx_hash c.tx_hash,
  eq_of_beq b.tx_hash a.tx_hash,
  eq_of_beq c.tx_hash b.tx_hash,
  eq_of_beq c.tx_hash a.tx_hash,
  bytes_lt-IsWeakOrder.not_trans b.tx_hash c.tx_hash a.tx_hash,
  bytes_lt-IsWeakOrder.not_trans c.tx_hash a.tx_hash b.tx_hash,
)

pub trade_before-IsWeakOrder : IsWeakOrder trade_before
trade_before-IsWeakOrder = record { asymm = trade_before-asymm; not_trans = trade_before-not_trans }

length-map : (fs : List Fill) → length (map trade_from_fill fs) ≡ length fs
length-map [] = refl
length-map (f ∷ fs) = omega (arith, length-map fs)

-- The aggregation gives one trade for each group, in the order of transaction hash and log index.
pub aggregate_by_tx-IsSorted :
    (fs : List Fill)
    → (length (aggregate_by_tx fs) ≡ length (group_fills [] fs))
      × IsSorted trade_before (aggregate_by_tx fs)
unfolding aggregate_by_tx
aggregate_by_tx-IsSorted fs =
    let trades = map trade_from_fill (group_fills [] fs) in
    (
      length-sort_by trade_before trades ∙ length-map (group_fills [] fs),
      sort_by-IsSorted trade_before-IsWeakOrder trades,
    )

pub aggregate_by_tx-nil : aggregate_by_tx [] ≡ []
unfolding aggregate_by_tx group_fills sort_by
aggregate_by_tx-nil = refl
