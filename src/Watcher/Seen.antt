-- ===== src/Watcher/Seen.antt =====
-- services/watcher/internal/dedup: the processed logs, by transaction and index, with their block.
pub mod Marks
mod Tests
use lobster_roll.Prelude.{
  ℕ, ◌≡◌, ◌↔◌, refl, Bool, true, false, List, [], ◌∷◌, Option, none, some, GoString, ◌≟◌, Eq,
  bytes_eq, ◌==◌, ltb, length, if◌then◌else◌, ◌&&◌, lookup, insert, keep, arith, eq_of_beq,
  beq_of_eq, beq_refl, ap, not,
}

pub record Key : Type 0 where
  pub tx : List ℕ
  pub idx : ℕ

abbrev key_beq : Key → Key → Bool
key_beq k j = k.tx ≟ j.tx && k.idx == j.idx

pub key_beq_iff : (k j : Key) → (key_beq k j ≡ true) ↔ (k ≡ j)
key_beq_iff k j = (
  λ h. ground (arith, eq_of_beq k.tx j.tx),
  λ e. ground (arith, e, beq_refl k.tx, beq_of_eq k.tx j.tx),
)

instance abbrev pub key_eq : Eq Key
key_eq = record { beq = key_beq; beq_iff = key_beq_iff }

-- Seen.block.
abbrev pub Seen : Type 0
Seen = List (Key × ℕ)

unfoldable pub present : Option ℕ → Bool
present none = false
present (some b) = true

-- `Seen.Has`.
unfoldable pub seen_has : Seen → Key → Bool
unfolding present
seen_has s k = present (lookup k s)

-- `Seen.Mark`, with its answer.
unfoldable pub mark : Seen → Key → ℕ → Seen × Bool
unfolding seen_has
mark s k block = if seen_has s k then (s, true) else (insert k block s, false)

-- `Seen.PruneBelow`.
unfoldable pub prune_below : Seen → ℕ → Seen
prune_below s block = keep (λ e. not (ltb e.1 block)) s
