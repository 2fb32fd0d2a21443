-- ===== src/Leaderboard/Stream/Queues.antt =====
-- What one subscriber's channel holds after each operation of the server.
use lobster_roll.Prelude.{
  ℕ, ◌<◌, ◌≡◌, refl, sym, ap, ◌∙◌, inl, inr, Bool-cases, true, false, List, [], ◌∷◌, Option, none,
  some, nat_eq, ◌≟◌, lookup, lookup-insert, if◌then◌else◌, arith, eq_of_beq, beq_of_eq,
}
use lobster_roll.Leaderboard.Watchset.{Delta}
use lobster_roll.Leaderboard.Stream.{
  Subscriber, Server, subscribe, left, unsubscribe, offer, offer_all,
}

unfoldable pub offered : Delta → Option Subscriber → Option Subscriber
offered upd none = none
offered upd (some sub) = some (offer upd sub)

pub lookup-offer_all :
    (id : ℕ) (upd : Delta) (subs : List (ℕ × Subscriber))
    → lookup id (offer_all upd subs) ≡ offered upd (lookup id subs)
unfolding offer_all offered lookup
lookup-offer_all id upd [] = refl
lookup-offer_all id upd ((j, sub) ∷ rest) = ground (arith, lookup-offer_all id upd rest)

-- The others come and go without touching a subscriber.
pub lookup-subscribe :
    (s : Server) (id : ℕ) → id < s.next_id → lookup id (subscribe s).0.subs ≡ lookup id s.subs
unfolding subscribe
lookup-subscribe s id h = ground (
  arith,
  lookup-insert s.next_id id (record { ch = []; active = true; lost = false }) s.subs,
  eq_of_beq s.next_id id,
)

pub lookup-subscribed :
    (s : Server)
    → lookup s.next_id (subscribe s).0.subs ≡ some (record { ch = []; active = true; lost = false })
unfolding subscribe
lookup-subscribed s = ground (
  arith,
  lookup-insert s.next_id s.next_id (record { ch = []; active = true; lost = false }) s.subs,
  beq_of_eq s.next_id s.next_id refl,
)

sub_or : Option Subscriber → Subscriber → Subscriber
sub_or none t = t
sub_or (some s) t = s

lookup-left :
    (id j : ℕ) (subs : List (ℕ × Subscriber)) (sub : Subscriber) (o : Option Subscriber)
    → lookup j subs ≡ o
    → lookup id subs ≡ some sub
    → lookup id (left o j subs)
      ≡ (if j ≟ id then some (record sub { active = false }) else some sub)
unfolding left sub_or
lookup-left id j subs sub none p q = elim (Bool-cases (j ≟ id)) [
  | inl e ↦ absurd (ground (arith, eq_of_beq j id e, p, q))
  | inr e ↦ rw e q
]
lookup-left id j subs sub (some t) p q = elim (Bool-cases (j ≟ id)) [
  | inl e ↦
      let same : t ≡ sub =
        ap (λ o. sub_or o t) (sym p ∙ ap (λ k. lookup k subs) (eq_of_beq j id e) ∙ q) in
      rw e (
        lookup-insert j id (record t { active = false }) subs
        ∙ rw e (
            ap {A = Subscriber} {B = Option Subscriber} (λ x. some (record x { active = false }))
              same))
  | inr e ↦ rw e (lookup-insert j id (record t { active = false }) subs ∙ rw e q)
]

-- Leaving ends one subscription and no other.
pub lookup-unsubscribe :
    (s : Server) (id j : ℕ) (sub : Subscriber)
    → lookup id s.subs ≡ some sub
    → lookup id (unsubscribe s j).subs
      ≡ (if j ≟ id then some (record sub { active = false }) else some sub)
unfolding unsubscribe
lookup-unsubscribe s id j sub = lookup-left id j s.subs sub (lookup j s.subs) refl
