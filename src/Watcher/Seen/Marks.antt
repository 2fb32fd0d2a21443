-- ===== src/Watcher/Seen/Marks.antt =====
-- What marking and pruning do to the set.
use lobster_roll.Prelude.{
  ℕ, ◌≤◌, ◌≡◌, true, [], ◌∷◌, some, ◌≟◌, if◌then◌else◌, lookup, lookup-insert, keep, arith,
  eq_of_beq, beq_of_eq,
}
use lobster_roll.Watcher.Seen.{Key, key_eq, Seen, present, seen_has, mark, prune_below}

-- The first mark of a log answers that it is new and a later one that it is not; a mark makes its log
-- present and changes nothing of the others.
pub mark-seen_has :
    (s : Seen) (k j : Key) (block : ℕ)
    → ((mark s k block).1 ≡ seen_has s k)
      × (seen_has (mark s k block).0 j ≡ (if k ≟ j then true else seen_has s j))
unfolding mark seen_has present
mark-seen_has s k j block = ground (arith, lookup-insert k j block s, eq_of_beq k j, beq_of_eq k j)

-- A log whose entries all lie at or above the block stays present through a prune.
pub prune_below-keeps :
    (s : Seen) (k : Key) (block b : ℕ)
    → lookup k s ≡ some b
    → block ≤ b
    → seen_has (prune_below s block) k ≡ true
unfolding prune_below seen_has present lookup keep
prune_below-keeps [] k block b e h = cc
prune_below-keeps ((j, c) ∷ s) k block b e h = ground (arith, prune_below-keeps s k block b)
