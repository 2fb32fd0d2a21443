-- ===== src/Leaderboard/Stream/Updates.antt =====
-- What the updates still to come do to a client's set.
use mathlib.Core.Path.{fun_ext}
use lobster_roll.Prelude.{
  ℕ, ◌≡◌, refl, sym, ap, ◌∙◌, ◌⊎◌, inl, inr, Bool, true, List, [], ◌∷◌, ◌++◌, Option, none, some,
  GoString, bytes_eq, nat_eq, arith,
}
use lobster_roll.Leaderboard.Watchset.{Delta, is_empty, replace}
use lobster_roll.Leaderboard.Watchset.Diff.{member, changed, replace-changed, changed-is_empty}
use lobster_roll.Leaderboard.Stream.{Subscriber, Server, snapshot_update, taken}
use lobster_roll.Leaderboard.Stream.Worlds.{
  replay, replay-replay, replay-append, view_of, view_of-snapshot_update, World, listed,
}

-- What is still to come takes the client's set, or some set if there is no snapshot yet, to the store's.
unfoldable pub Synced : World → List Delta → Type 0
Synced w ch =
    (m : GoString → Bool) × (replay (replay m ch) (listed w.pending) ≡ member w.store)
    × ((w.view ≡ none) ⊎ (w.view ≡ some m))

pub syncs-Synced :
    (w : World) (wallets : List GoString) (now : ℕ) (opened written : Bool) (ch : List Delta)
    → w.pending ≡ none
    → Synced w ch
    → Synced
        (record w {
          store = (replace w.store wallets now opened written).0;
          pending = (replace w.store wallets now opened written).1;
        })
        ch
unfolding Synced replay listed
syncs-Synced w wallets now opened written ch p (m, e, v) =
    let before : replay m ch ≡ member w.store =
      ap (λ o. replay (replay m ch) (listed o)) (sym p) ∙ e in
    elim (replace-changed w.store wallets now opened written) [
      | inl (r, same) ↦
          (m, ap (λ o. replay (replay m ch) (listed o)) r ∙ before ∙ ap member (sym same), v)
      | inr (d, r, new) ↦ (
        m,
        ap (λ o. replay (replay m ch) (listed o)) r ∙ ap (λ x. changed x d) before ∙ sym new,
        v,
      )
    ]

pub broadcasts-Synced :
    (w : World) (d : Delta) (ch : List Delta)
    → w.pending ≡ some d
    → Synced w ch
    → (is_empty d ≡ true → Synced (record w { pending = none }) ch)
      × Synced (record w { pending = none }) (ch ++ d ∷ [])
unfolding Synced replay listed
broadcasts-Synced w d ch p (m, e, v) =
    let to_come : changed (replay m ch) d ≡ member w.store =
      ap (λ o. replay (replay m ch) (listed o)) (sym p) ∙ e in
    (
      λ h. (m, (sym (fun_ext λ x. changed-is_empty (replay m ch) d x h) ∙ to_come), v),
      (m, replay-append m ch (d ∷ []) ∙ to_come, v),
    )

pub snapshots-Synced :
    (w : World) (ch : List Delta)
    → Synced w ch
    → Synced (record w { view = some (view_of (snapshot_update w.store)) }) ch
unfolding Synced
snapshots-Synced w ch (m, e, v) =
    let whole : replay m (ch ++ listed w.pending) ≡ member w.store =
      replay-append m ch (listed w.pending) ∙ e in
    (
      view_of (snapshot_update w.store),
      ap (λ x. replay (replay x ch) (listed w.pending))
            (view_of-snapshot_update w.store ∙ sym whole)
          ∙ sym (replay-append (replay m (ch ++ listed w.pending)) ch (listed w.pending))
          ∙ replay-replay m (ch ++ listed w.pending)
          ∙ whole,
      inr refl,
    )

unfoldable pub view_or : Option (GoString → Bool) → (GoString → Bool) → GoString → Bool
view_or none v = v
view_or (some m) v = m

pair_of : Option (Delta × Subscriber) → (Delta × Subscriber) → Delta × Subscriber
pair_of none p = p
pair_of (some p) q = p

pub taken-some :
    (sub rest : Subscriber) (ch : List Delta) (upd : Delta)
    → taken sub ch ≡ some (upd, rest)
    → (ch ≡ upd ∷ rest.ch) × (rest.active ≡ sub.active)
unfolding taken pair_of
taken-some sub rest [] upd e = absurd cc
taken-some sub rest (d ∷ ch) upd e =
    let same = ap (λ o. pair_of o (upd, rest)) e in
    (ap (λ p. p.0 ∷ p.1.ch) same, sym (ap (λ p. p.1.active) same))

-- What the client takes from the channel is the next of the updates to come.
pub receives-Synced :
    (w : World) (rest : Subscriber) (upd : Delta) (v : GoString → Bool) (ch : List Delta)
    (server : Server)
    → ch ≡ upd ∷ rest.ch
    → w.view ≡ some v
    → Synced w ch
    → Synced (record w { server = server; view = some (changed v upd) }) rest.ch
unfolding Synced replay view_or
receives-Synced w rest upd v ch server e s (m, f, inl n) = absurd (ground (arith, n, s))
receives-Synced w rest upd v ch server e s (m, f, inr k) =
    let same : m ≡ v = ap (λ o. view_or o v) (sym k ∙ s) in
    (
      changed v upd,
      ap (λ x. replay (replay x (upd ∷ rest.ch)) (listed w.pending)) (sym same)
          ∙ ap (λ c. replay (replay m c) (listed w.pending)) (sym e)
          ∙ f,
      inr refl,
    )
