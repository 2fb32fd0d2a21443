-- ===== src/Notifier/Approval/Tests.antt =====
-- Runs of the gate, for proposals whose sizes are numbers and with the identity in the place of SHA-256.
use lobster_roll.Prelude.{
  ℕ, ◌+◌, ◌≤◌, ◌≡◌, ◌≢◌, ◌↔◌, refl, true, false, List, [], ◌∷◌, ◌++◌, none, some, GoString, codes,
  ◌≟◌, bytes_eq, pos, lookup, if◌then◌else◌, bytes_beq, digits, decimal,
}
use lobster_roll.Bus.{TradeDetected, OrderProposal}
use lobster_roll.Notifier.Approval.{
  CallbackQuery, Pending, Manager, parse_callback, split_first, onto, checked_parts, proposal_key,
  hex_encode, hex_digit, may_act, authorized, format_int, register, posted, handle_callback,
}
use lobster_roll.Notifier.Approval.Callbacks.{IsAction, parse_callback_iff}
use lobster_roll.Notifier.Approval.Decisions.{Step, proposes, taps, run, proposals, run-decided}
use lobster_roll.Notifier.Approval.Keyed.{decided}
use lobster_roll.Notifier.Approval.Ghost.{
  decision_of, handle_callback-claims, handle_callback-ghost,
}

abbrev empty_trade : TradeDetected
empty_trade = record {
  wallet = [];
  token_id = [];
  side = [];
  price = [];
  size = [];
  tx_hash = [];
  log_index = 0;
  block_number = 0;
  observed_at = 0;
  backfilled = false;
}

abbrev proposal : GoString → OrderProposal ℕ
proposal id = record {
  id = id;
  source_trade = empty_trade;
  token_id = [];
  side = [];
  limit_price = [];
  size_usd = 5;
  reason = [];
}

abbrev zero_pending : Pending ℕ
zero_pending = record { proposal = proposal []; message_id = 0 }

abbrev empty : Manager ℕ
empty = record { pend = []; halted = false; decisions = []; controls = []; answers = [] }

-- The key of the proposal `J` is "4a".
abbrev tap : CallbackQuery
tap = record { chat = some (pos 7); content = codes "a:4a"; username = codes "ann" }

key_run : proposal_key (λ x. x) (codes "J") ≡ codes "4a"
unfolding proposal_key hex_encode hex_digit
key_run = refl

parse_run : parse_callback (codes "a:4a") ≡ some (codes "a", codes "4a")
unfolding parse_callback split_first onto checked_parts bytes_beq
parse_run = refl

may_run : may_act (codes "7") (some (pos 7)) ≡ true
unfolding may_act authorized format_int decimal digits bytes_beq
may_run = refl

parse_callback_iff_run :
    (parse_callback (codes "a:4a") ≡ some (codes "a", codes "4a"))
    ↔ ((codes "a:4a" ≡ codes "a" ++ b':' ∷ codes "4a") × IsAction (codes "a") × (codes "4a" ≢ []))
parse_callback_iff_run = parse_callback_iff (codes "a:4a") (codes "a") (codes "4a")

abbrev history : List (Step (λ x. x) (codes "7") zero_pending)
history = proposes (proposal (codes "J")) (some 3) ∷ taps tap true ∷ taps tap true ∷ []

run-decided_example :
    decided {F = ℕ}
      (λ x. x)
      (codes "4a")
      (run (λ x. x) (codes "7") zero_pending empty history).decisions
    ≤ decided {F = ℕ} (λ x. x) (codes "4a") []
      + proposals (λ x. x) (codes "7") zero_pending (codes "4a") history
run-decided_example = run-decided (λ x. x) (codes "7") zero_pending (codes "4a") history empty refl

abbrev one_waits : Manager ℕ
one_waits = record empty {
  pend = (codes "4a", record { proposal = proposal (codes "J"); message_id = 3 }) ∷ [];
}

waits_run :
    lookup (codes "4a") one_waits.pend
    ≡ some (record { proposal = proposal (codes "J"); message_id = 3 })
unfolding lookup bytes_beq
waits_run = refl

handle_callback-claims_run :
    let n = handle_callback (λ x. x) (codes "7") one_waits tap true in
    (n.decisions
      ≡ [] ++ decision_of (λ x. x) (codes "7") (codes "a") tap (proposal (codes "J")) ∷ [])
    × (lookup (codes "4a") n.pend
        ≡ (if codes "4a" ≟ codes "4a" then none else lookup (codes "4a") one_waits.pend))
handle_callback-claims_run =
    handle_callback-claims (λ x. x) (codes "7") one_waits tap (codes "a") (codes "4a")
      (record { proposal = proposal (codes "J"); message_id = 3 }) true may_run parse_run waits_run
      (codes "4a")

handle_callback-ghost_example :
    let tapped =
      handle_callback
        (λ x. x)
        (codes "7")
        (register (λ x. x) (codes "7") empty (proposal (codes "J")))
        tap
        true in
    let noted = posted (λ x. x) (codes "7") zero_pending tapped (proposal (codes "J")) (some 3) in
    (handle_callback (λ x. x) (codes "7") noted tap true).decisions
    ≡ []
      ++ decision_of (λ x. x) (codes "7") (codes "a") tap (proposal (codes "J"))
        ∷ decision_of (λ x. x) (codes "7") (codes "a") tap (proposal [])
        ∷ []
unfolding proposal_key hex_encode hex_digit
handle_callback-ghost_example =
    handle_callback-ghost (λ x. x) (codes "7") zero_pending empty (proposal (codes "J")) tap
      (codes "a") 3 refl may_run parse_run
