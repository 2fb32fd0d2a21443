-- ===== src/Watcher/Seen/Tests.antt =====
-- Runs of the set of seen logs.
use lobster_roll.Prelude.{◌≡◌, refl, true, [], ◌∷◌, ◌≟◌, if◌then◌else◌, bytes_beq, lookup, arith}
use lobster_roll.Watcher.Seen.{Key, key_eq, Seen, seen_has, mark, prune_below}
use lobster_roll.Watcher.Seen.Marks.{mark-seen_has, prune_below-keeps}

abbrev first_log : Key
first_log = record { tx = 9 ∷ []; idx = 4 }

abbrev second_log : Key
second_log = record { tx = 9 ∷ []; idx = 5 }

abbrev seen : Seen
seen = (second_log, 120) ∷ (first_log, 100) ∷ []

mark-seen_has_run :
    ((mark ((first_log, 100) ∷ []) second_log 120).1 ≡ seen_has ((first_log, 100) ∷ []) second_log)
    × (seen_has (mark ((first_log, 100) ∷ []) second_log 120).0 first_log
        ≡ (if second_log ≟ first_log then true else seen_has ((first_log, 100) ∷ []) first_log))
mark-seen_has_run = mark-seen_has ((first_log, 100) ∷ []) second_log first_log 120

prune_below-keeps_run : seen_has (prune_below seen 110) second_log ≡ true
unfolding bytes_beq lookup
prune_below-keeps_run = prune_below-keeps seen second_log 110 120 refl (omega arith)
