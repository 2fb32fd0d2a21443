-- ===== src/Leaderboard/Watchset/Diff.antt =====
-- What `Replace` makes of the table, and what its delta tells.
use mathlib.Core.Path.{fun_ext}
use lobster_roll.Prelude.{
  ℕ, ◌≡◌, refl, sym, ◌∙◌, ◌⊎◌, inl, inr, Bool, true, false, not, List, [], ◌∷◌, Option, none, some,
  GoString, ◌≟◌, bytes_eq, bytes_lt, has, keep, delete, has-sort_by, Bool-cases, if_cases,
  eq_of_beq, beq_of_eq, if◌then◌else◌, ◌&&◌, ◌||◌, arith, IsSorted, sort_by-IsSorted,
  bytes_lt-IsWeakOrder,
}
use lobster_roll.Leaderboard.Watchset.{
  Delta, Store, is_nil, is_empty, set_of, only_in, diff, keys, list_wallets, insert_rows,
  delete_rows, write_delta, replace,
}

-- Whether a wallet is followed: the store as a set, which forgets the order and the times.
unfoldable pub member : Store → GoString → Bool
member s w = has w (keys s.watchset)

has-set_of : (w : GoString) (ws : List GoString) → has w (set_of ws) ≡ has w ws
unfolding has set_of
has-set_of w [] = refl
has-set_of w (v ∷ ws) = ground (arith, has-set_of w ws, eq_of_beq v w)

has-keep_absent :
    (w : GoString) (old ws : List GoString)
    → has w (keep (λ v. not (has v old)) ws) ≡ (has w ws && not (has w old))
unfolding has keep
has-keep_absent w old [] = refl
has-keep_absent w old (v ∷ ws) = ground (arith, has-keep_absent w old ws, eq_of_beq v w)

pub has-only_in :
    (w : GoString) (new old : List GoString)
    → has w (only_in new old) ≡ (has w new && not (has w old))
unfolding only_in
has-only_in w new old = ground (
  arith,
  has-sort_by bytes_lt w (keep (λ v. not (has v old)) (set_of new)),
  has-keep_absent w old (set_of new),
  has-set_of w new,
)

has-insert_rows :
    (w : GoString) (now : ℕ) (ws : List GoString) (t : List (GoString × ℕ))
    → has w (keys (insert_rows now ws t)) ≡ (has w ws || has w (keys t))
unfolding has keys insert_rows
has-insert_rows w now [] t = refl
has-insert_rows w now (v ∷ ws) t = ground (arith, has-insert_rows w now ws t)

has-delete :
    (w v : GoString) (t : List (GoString × ℕ))
    → has w (keys (delete v t)) ≡ (not (v ≟ w) && has w (keys t))
unfolding has keys delete
has-delete w v [] = ground arith
has-delete w v ((u, at) ∷ t) = ground (
  arith,
  has-delete w v t,
  eq_of_beq u v,
  eq_of_beq u w,
  beq_of_eq v w,
  eq_of_beq v w,
  beq_of_eq u v,
)

has-delete_rows :
    (w : GoString) (ws : List GoString) (t : List (GoString × ℕ))
    → has w (keys (delete_rows ws t)) ≡ (not (has w ws) && has w (keys t))
unfolding has keys delete_rows
has-delete_rows w [] t = refl
has-delete_rows w (v ∷ ws) t =
    ground (arith, has-delete_rows w ws t, has-delete w v (delete_rows ws t))

-- The set that a delta makes of a set; what is removed is never added too.
unfoldable pub changed : (GoString → Bool) → Delta → GoString → Bool
changed m d w = not (has w d.removed) && (has w d.added || m w)

pub member-write_delta :
    (s : Store) (d : Delta) (now : ℕ) (w : GoString)
    → member (write_delta s d now) w ≡ changed (member s) d w
unfolding member write_delta changed
member-write_delta s d now w = ground (
  arith,
  has-delete_rows w d.removed (insert_rows now d.added s.watchset),
  has-insert_rows w now d.added s.watchset,
)

pub member-list_wallets : (s : Store) (w : GoString) → has w (list_wallets s) ≡ member s w
unfolding member list_wallets
member-list_wallets s w = has-sort_by bytes_lt w (keys s.watchset)

changed-diff :
    (s : Store) (new : List GoString) (w : GoString)
    → changed (member s) (diff (list_wallets s) new) w ≡ has w new
unfolding changed diff
changed-diff s new w = ground (
  arith,
  has-only_in w new (list_wallets s),
  has-only_in w (list_wallets s) new,
  member-list_wallets s w,
)

pub nil-cases : (ws : List GoString) → (ws ≡ []) ⊎ (is_nil ws ≡ false)
unfolding is_nil
nil-cases [] = inl refl
nil-cases (w ∷ ws) = inr refl

pub changed-is_empty :
    (m : GoString → Bool) (d : Delta) (w : GoString) → is_empty d ≡ true → changed m d w ≡ m w
unfolding changed is_empty is_nil has
changed-is_empty m d w h = elim (nil-cases d.added) [
  | inl a ↦ elim (nil-cases d.removed) [
    | inl r ↦ rw (a, r) refl
    | inr r ↦ absurd (ground (arith, h, r, a))
  ]
  | inr a ↦ absurd (ground (arith, h, a))
]

-- Whatever becomes of `Replace`: on an error the store is as it was, and otherwise the delta that it
-- answers takes the old set of wallets to the new one.
pub replace-changed :
    (s : Store) (wallets : List GoString) (now : ℕ) (opened written : Bool)
    → (((replace s wallets now opened written).1 ≡ none)
        × ((replace s wallets now opened written).0 ≡ s))
      ⊎ ((d : Delta) × ((replace s wallets now opened written).1 ≡ some d)
          × (member (replace s wallets now opened written).0 ≡ changed (member s) d))
unfolding replace
replace-changed s wallets now opened written =
    let d = diff (list_wallets s) wallets in
    let nothing : Delta = record { added = []; removed = [] } in
    let P : Store × Option Delta → Type 0 = λ r.
      ((r.1 ≡ none) × (r.0 ≡ s))
      ⊎ ((e : Delta) × (r.1 ≡ some e) × (member r.0 ≡ changed (member s) e)) in
    if_cases P (is_nil wallets) _ _
      (λ _. inr (nothing, refl, fun_ext λ w. sym (changed-is_empty (member s) nothing w refl)))
      (λ _.
        if_cases P (not opened) _ _ (λ _. inl (refl, refl))
          (λ _.
            if_cases P (is_empty d) _ _
              (λ e. inr (d, refl, fun_ext λ w. sym (changed-is_empty (member s) d w e)))
              (λ _.
                if_cases P (not written) _ _ (λ _. inl (refl, refl))
                  (λ _. inr (d, refl, fun_ext λ w. member-write_delta s d now w)))))

-- When the database answers, `Replace` makes the followed set exactly the given one, if that is not
-- empty, and leaves everything as it was if it is.
pub replace-member :
    (s : Store) (wallets : List GoString) (now : ℕ)
    → member (replace s wallets now true true).0
      ≡ (if is_nil wallets then member s else λ w. has w wallets)
unfolding replace
replace-member s wallets now =
    let d = diff (list_wallets s) wallets in
    elim (Bool-cases (is_nil wallets)) [
      | inl e ↦ rw e refl
      | inr e ↦ elim (Bool-cases (is_empty d)) [
        | inl f ↦
            rw (e, f)
              (fun_ext λ w. sym (changed-is_empty (member s) d w f) ∙ changed-diff s wallets w)
        | inr f ↦ rw (e, f) (fun_ext λ w. member-write_delta s d now w ∙ changed-diff s wallets w)
      ]
    ]

-- The two parts of a delta are sorted, have no wallet twice and none in common.
pub diff-IsSorted :
    (old new : List GoString)
    → IsSorted bytes_lt (diff old new).added
      × IsSorted bytes_lt (diff old new).removed
      × ((w : GoString) → (has w (diff old new).added && has w (diff old new).removed) ≡ false)
unfolding diff only_in
diff-IsSorted old new = (
  sort_by-IsSorted bytes_lt-IsWeakOrder (keep (λ w. not (has w old)) (set_of new)),
  sort_by-IsSorted bytes_lt-IsWeakOrder (keep (λ w. not (has w new)) (set_of old)),
  λ w. ground (arith, has-only_in w new old, has-only_in w old new),
)

-- A delta answered for a set that is not empty comes with exactly that set.
pub replace-some :
    (s : Store) (wallets : List GoString) (now : ℕ) (opened written : Bool) (e : Delta)
    (w : GoString)
    → is_nil wallets ≡ false
    → (replace s wallets now opened written).1 ≡ some e
    → member (replace s wallets now opened written).0 w ≡ has w wallets
unfolding replace
replace-some s wallets now opened written e w some_wallets =
    let d = diff (list_wallets s) wallets in
    let P : Store × Option Delta → Type 0 = λ r. r.1 ≡ some e → member r.0 w ≡ has w wallets in
    if_cases P (is_nil wallets) _ _ (λ h _. absurd (ground (arith, h, some_wallets)))
      (λ _.
        if_cases P (not opened) _ _ (λ _ h. absurd cc)
          (λ _.
            if_cases P (is_empty d) _ _
              (λ f _. sym (changed-is_empty (member s) d w f) ∙ changed-diff s wallets w)
              (λ _.
                if_cases P (not written) _ _ (λ _ h. absurd cc)
                  (λ _ _. member-write_delta s d now w ∙ changed-diff s wallets w))))
