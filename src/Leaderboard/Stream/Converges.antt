-- ===== src/Leaderboard/Stream/Converges.antt =====
-- A stream that is not cut off and has caught up shows the followed set, however the syncs, the
-- broadcasts, the snapshot and the stream's own reading interleave.
use mathlib.Core.Path.{subst}
use lobster_roll.Prelude.{
  ℕ, ◌<◌, ◌≡◌, refl, sym, ap, ◌∙◌, ◌⊎◌, inl, inr, Bool, true, false, List, [], Option, none, some,
  GoString, bytes_eq, nat_eq, lookup, insert, lookup-insert, Bool-cases, if_cases, beq_of_eq,
  length, ltb, if◌then◌else◌, arith, ◌≟◌,
}
use lobster_roll.Leaderboard.Watchset.{Delta, is_empty, replace}
use lobster_roll.Leaderboard.Watchset.Diff.{member, changed}
use lobster_roll.Leaderboard.Stream.{
  Subscriber, Server, subscribe, unsubscribe, offer, broadcast, snapshot_update, next_update,
  sub_buffer,
}
use lobster_roll.Leaderboard.Stream.Queues.{
  offered, lookup-offer_all, lookup-subscribe, lookup-subscribed, lookup-unsubscribe,
}
use lobster_roll.Leaderboard.Stream.Worlds.{
  replay, view_of, World, Step, Reach, listed, syncs, broadcasts, joins, snapshots, receives,
  other_joins, leaves, here, after,
}
use lobster_roll.Leaderboard.Stream.Updates.{
  Synced, syncs-Synced, broadcasts-Synced, snapshots-Synced, taken-some, receives-Synced, view_or,
}

offer-Synced :
    (w : World) (d : Delta) (sub : Subscriber)
    → w.pending ≡ some d
    → (sub.active ≡ false) ⊎ Synced w sub.ch
    → ((offer d sub).active ≡ false) ⊎ Synced (record w { pending = none }) (offer d sub).ch
unfolding offer
offer-Synced w d sub p why =
    let P : Subscriber → Type 0 =
      λ x. (x.active ≡ false) ⊎ Synced (record w { pending = none }) x.ch in
    if_cases P sub.active _ _
      (λ on.
        if_cases P (ltb (length sub.ch) sub_buffer) _ _
          (λ _. elim why [ inl off ↦ inl off | inr q ↦ inr (broadcasts-Synced w d sub.ch p q).1 ])
          (λ _. inl refl))
      (λ off. inl off)

-- The parts of a followed stream that only the server changes.
Tracked : Server → ℕ → Subscriber → Type 0
Tracked s id sub = (id < s.next_id) × (lookup id s.subs ≡ some sub)

broadcast-Tracked :
    (s : Server) (d : Delta) (id : ℕ) (sub : Subscriber)
    → Tracked s id sub
    → Tracked (broadcast s d) id (if is_empty d then sub else offer d sub)
unfolding Tracked broadcast offered
broadcast-Tracked s d id sub (early, l) = elim (Bool-cases (is_empty d)) [
  | inl e ↦ rw e (early, l)
  | inr e ↦ rw e (early, lookup-offer_all id d s.subs ∙ rw l refl)
]

-- A stream after a step: it is followed with a channel, or nothing is left to say of it.
Kept : World → ℕ → Type 0
Kept w id = (sub : Subscriber) × Tracked w.server id sub × ((sub.active ≡ false) ⊎ Synced w sub.ch)

broadcasts-Kept :
    (w : World) (d : Delta) (id : ℕ)
    → w.pending ≡ some d
    → Kept w id
    → Kept (record w { server = broadcast w.server d; pending = none }) id
unfolding Kept Synced
broadcasts-Kept w d id p (sub, t, why) = (
  if is_empty d then sub else offer d sub,
  broadcast-Tracked w.server d id sub t,
  if_cases (λ (x : Subscriber). (x.active ≡ false) ⊎ Synced (record w { pending = none }) x.ch)
      (is_empty d) sub (offer d sub)
      (λ e. elim why [ inl off ↦ inl off | inr q ↦ inr ((broadcasts-Synced w d sub.ch p q).0 e) ])
      (λ _. offer-Synced w d sub p why),
)

sub_of : Option Subscriber → Subscriber → Subscriber
sub_of none t = t
sub_of (some s) t = s

receives-Kept :
    (w : World) (id : ℕ) (sub rest : Subscriber) (upd : Delta) (v : GoString → Bool)
    → lookup id w.server.subs ≡ some sub
    → next_update sub ≡ some (upd, rest)
    → w.view ≡ some v
    → Kept w id
    → Kept
        (record w {
          server = record w.server { subs = insert id rest w.server.subs };
          view = some (changed v upd);
        })
        id
unfolding Kept Tracked next_update sub_of
receives-Kept w id sub rest upd v l n k (other, (early, m), why) =
    let same : other ≡ sub = ap (λ o. sub_of o sub) (sym m ∙ l) in
    let (e, active) = taken-some sub rest sub.ch upd n in
    (
      rest,
      (early, lookup-insert id id rest w.server.subs ∙ rw (beq_of_eq id id refl) refl),
      elim why [
        | inl off ↦ inl (active ∙ ap (λ x. x.active) (sym same) ∙ off)
        | inr q ↦ inr (
            receives-Synced w rest upd v other.ch
              (record w.server { subs = insert id rest w.server.subs }) (ap (λ x. x.ch) same ∙ e) k
              q)
      ],
    )

leaves-Kept :
    (w : World) (id j : ℕ) → Kept w id → Kept (record w { server = unsubscribe w.server j }) id
unfolding Kept Tracked Synced unsubscribe
leaves-Kept w id j (sub, (early, l), why) =
    let found = lookup-unsubscribe w.server id j sub l in
    elim (Bool-cases (j ≟ id)) [
      | inl e ↦ (record sub { active = false }, (early, found ∙ rw e refl), inl refl)
      | inr e ↦ (sub, (early, found ∙ rw e refl), why)
    ]

Good : World → Type 0
Good w =
    ((w.stream ≡ none) × (w.view ≡ none) × Synced w [])
    ⊎ ((id : ℕ) × (w.stream ≡ some id) × Kept w id)

joins-Kept :
    (w : World)
    → Synced w []
    → Kept
        (record w { server = (subscribe w.server).0; stream = some w.server.next_id })
        w.server.next_id
unfolding Kept Tracked Synced subscribe
joins-Kept w q = (
  record { ch = []; active = true; lost = false },
  (omega arith, lookup-subscribed w.server),
  inr q,
)

other_joins-Kept :
    (w : World) (id : ℕ) → Kept w id → Kept (record w { server = (subscribe w.server).0 }) id
unfolding Kept Tracked Synced subscribe
other_joins-Kept w id (sub, (early, l), why) =
    (sub, (omega arith, lookup-subscribe w.server id early ∙ l), why)

syncs-Kept :
    (w : World) (wallets : List GoString) (now : ℕ) (opened written : Bool) (id : ℕ)
    → w.pending ≡ none
    → Kept w id
    → Kept
        (record w {
          store = (replace w.store wallets now opened written).0;
          pending = (replace w.store wallets now opened written).1;
        })
        id
unfolding Kept
syncs-Kept w wallets now opened written id p (sub, t, why) = (
  sub,
  t,
  elim why [
    | inl off ↦ inl off
    | inr q ↦ inr (syncs-Synced w wallets now opened written sub.ch p q)
  ],
)

snapshots-Kept :
    (w : World) (id : ℕ)
    → Kept w id
    → Kept (record w { view = some (view_of (snapshot_update w.store)) }) id
unfolding Kept
snapshots-Kept w id (sub, t, why) =
    (sub, t, elim why [ inl off ↦ inl off | inr q ↦ inr (snapshots-Synced w sub.ch q) ])

-- A broadcast before the stream has joined is part of the set that the snapshot will show.
broadcasts-unjoined :
    (w : World) (d : Delta)
    → w.pending ≡ some d
    → w.view ≡ none
    → Synced w []
    → Synced (record w { server = broadcast w.server d; pending = none }) []
unfolding Synced replay listed
broadcasts-unjoined w d p v (m, e, k) = (member w.store, refl, inl v)

Step-Good : {w x : World} → Step w x → Good w → Good x
unfolding Good Synced subscribe
Step-Good (syncs w wallets now opened written p) (inl (st, v, q)) =
    inl (st, v, syncs-Synced w wallets now opened written [] p q)
Step-Good (syncs w wallets now opened written p) (inr (id, st, k)) =
    inr (id, st, syncs-Kept w wallets now opened written id p k)
Step-Good (broadcasts w d p) (inl (st, v, q)) = inl (st, v, broadcasts-unjoined w d p v q)
Step-Good (broadcasts w d p) (inr (id, st, k)) = inr (id, st, broadcasts-Kept w d id p k)
Step-Good (joins w s) (inl (st, v, q)) = inr (w.server.next_id, refl, joins-Kept w q)
Step-Good (joins w s) (inr (id, st, k)) = absurd (ground (arith, s, st))
Step-Good (snapshots w id s v) (inl (st, _, _)) = absurd (ground (arith, s, st))
Step-Good (snapshots w id s v) (inr (j, st, k)) = inr (j, st, snapshots-Kept w j k)
Step-Good (receives w id sub rest upd v s l n k) (inl (st, _, _)) = absurd (ground (arith, s, st))
Step-Good (receives w id sub rest upd v s l n k) (inr (j, st, kept)) =
    let same : j ≡ id = ground (arith, s, st) in
    inr (id, s, receives-Kept w id sub rest upd v l n k (subst (Kept w) same kept))
Step-Good (other_joins w) (inl (st, v, q)) = inl (st, v, q)
Step-Good (other_joins w) (inr (id, st, k)) = inr (id, st, other_joins-Kept w id k)
Step-Good (leaves w j) (inl (st, v, q)) = inl (st, v, q)
Step-Good (leaves w j) (inr (id, st, k)) = inr (id, st, leaves-Kept w id j k)

Reach-Good : {w x : World} → Good w → Reach w x → Good x
Reach-Good g here = g
Reach-Good g (after r s) = Step-Good s (Reach-Good g r)

same_view :
    (w : World) (m v : GoString → Bool)
    → (w.view ≡ none) ⊎ (w.view ≡ some m)
    → w.view ≡ some v
    → v ≡ m
unfolding view_or
same_view w m v (inl n) s = absurd (ground (arith, n, s))
same_view w m v (inr k) s = ap (λ o. view_or o m) (sym s ∙ k)

caught_up :
    (w : World) (id : ℕ) (sub : Subscriber) (v : GoString → Bool)
    → Kept w id
    → lookup id w.server.subs ≡ some sub
    → sub.active ≡ true
    → sub.ch ≡ []
    → w.pending ≡ none
    → w.view ≡ some v
    → v ≡ member w.store
unfolding Kept Tracked Synced replay listed sub_of
caught_up w id sub v (other, (early, l), why) found on empty p view =
    let same : other ≡ sub = ap (λ o. sub_of o sub) (sym l ∙ found) in
    elim why [
      | inl off ↦ absurd (ground (arith, on, sym (ap (λ x. x.active) same) ∙ off))
      | inr (m, e, k) ↦
          same_view w m v k view
          ∙ ap (λ c. replay (replay m c) []) (sym (ap (λ x. x.ch) same ∙ empty))
          ∙ ap (λ o. replay (replay m other.ch) (listed o)) (sym p)
          ∙ e
    ]

-- From a world with no stream yet and no broadcast waiting, whatever steps follow, in any order: when a
-- stream is still on the server's map, its channel is empty, no broadcast waits and its client has taken
-- the snapshot, the client's set is the followed set of the store.
pub Reach-view :
    (start w : World) (id : ℕ) (sub : Subscriber) (v : GoString → Bool)
    → start.stream ≡ none
    → start.view ≡ none
    → start.pending ≡ none
    → Reach start w
    → w.stream ≡ some id
    → lookup id w.server.subs ≡ some sub
    → sub.active ≡ true
    → sub.ch ≡ []
    → w.pending ≡ none
    → w.view ≡ some v
    → v ≡ member w.store
unfolding Good Synced replay listed
Reach-view start w id sub v s0 v0 p0 path st l on empty p view =
    let ready : Good start =
      inl (
        s0,
        v0,
        (member start.store, ap (λ o. replay (member start.store) (listed o)) p0, inl v0),
      ) in
    elim (Reach-Good ready path) [
      | inl (unjoined, _, _) ↦ absurd (ground (arith, unjoined, st))
      | inr (j, joined, kept) ↦
          let same : j ≡ id = ground (arith, joined, st) in
          caught_up w id sub v (subst (Kept w) same kept) l on empty p view
    ]
