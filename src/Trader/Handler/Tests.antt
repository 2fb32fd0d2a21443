-- ===== src/Trader/Handler/Tests.antt =====
-- The theorems on the handler at concrete calls.
use lobster_roll.Prelude.{
  ℕ, ◌≤◌, ◌*◌, ◌≡◌, ◌≢◌, refl, ◌⊎◌, inl, true, false, [], ◌∷◌, pos, some, none, codes, bytes_eq,
  bytes_beq, bytes_lt, lookup,
}
use lobster_roll.Float.{Fixed, fixed_float, add_fixed}
use lobster_roll.Bus.{OrderProposal, TradeDetected}
use lobster_roll.Trader.Caps.{Caps, allowed, reserve, release}
use lobster_roll.Trader.Placements.{claim}
use lobster_roll.Trader.ExecMode.{mode_auto}
use lobster_roll.Trader.Handler.{
  Trader, Answers, accepted, place, is_buy, reserve_caps, after_reserve, sign_and_place, settle,
  send, mark, fail,
}
use lobster_roll.Trader.Handler.AtMostOnce.{
  times, decided, proposed, control, receive_all, times-receive_all-le,
}
use lobster_roll.Trader.Handler.Reservations.{
  reservation, caps_after, place_sent, place_not_sent, place_halted, place_retry, place_cap_refused,
}

abbrev usd : ℕ → Fixed
usd n = some (pos (n * 1_000_000))

abbrev limits : Caps Fixed
limits = record {
  max_per_trade = usd 100;
  max_per_day = usd 150;
  max_open_exposure = usd 200;
  day_spent = usd 0;
  day_key = [];
  open_exposure = usd 0;
  has_ledger = false;
  saved = none;
}

abbrev idle : Trader Fixed
idle = record { halt = false; caps = limits; placements = []; sent = []; results = [] }

abbrev source : TradeDetected
source = record {
  wallet = codes "0xa";
  token_id = codes "42";
  side = codes "buy";
  price = codes "0.5";
  size = codes "40";
  tx_hash = codes "0x1";
  log_index = 0;
  block_number = 7;
  observed_at = 130;
  backfilled = false;
}

abbrev buy_20 : OrderProposal Fixed
buy_20 = record {
  id = codes "prop-1";
  source_trade = source;
  token_id = codes "42";
  side = codes "buy";
  limit_price = codes "0.53";
  size_usd = usd 20;
  reason = codes "mirror";
}

abbrev buy_120 : OrderProposal Fixed
buy_120 = record buy_20 { size_usd = usd 120 }

abbrev smooth : Answers
smooth = record {
  claim_fails = false;
  day_key = codes "2026-01-05";
  reserve_saved = true;
  sign_fails = false;
  halted_again = false;
  place_order = accepted (codes "ord-1") (codes "matched");
  release_saved = true;
  unclaim_fails = false;
  mark_fails = false;
}

times-receive_all-le_example :
    times
      (codes "prop-1")
      (receive_all idle (
        decided smooth (record { proposal = buy_20; approved = true; by = [] })
        ∷ control false
        ∷ proposed (record { mode = mode_auto; ceiling_usd = usd 0 }) smooth buy_20
        ∷ [])).sent
    ≤ 1
times-receive_all-le_example =
    times-receive_all-le idle
      (decided smooth (record { proposal = buy_20; approved = true; by = [] })
        ∷ control false
        ∷ proposed (record { mode = mode_auto; ceiling_usd = usd 0 }) smooth buy_20
        ∷ [])
      (codes "prop-1") refl

place_sent_example :
    (idle.halt ≡ false)
    × (false ≡ false)
    × ((claim buy_20.id idle.placements).1 ≡ true)
    × ((reservation smooth buy_20 idle).1 ≡ allowed)
    × (smooth.sign_fails ≡ false)
    × ((place smooth buy_20 idle).sent ≡ buy_20.id ∷ [])
    × ((place smooth buy_20 idle).caps
        ≡ caps_after smooth buy_20 smooth.place_order (reservation smooth buy_20 idle).0)
unfolding place reserve_caps after_reserve sign_and_place settle send mark is_buy claim lookup
    bytes_beq reserve add_fixed bytes_lt
place_sent_example = place_sent smooth buy_20 idle (λ e. cc)

place_not_sent_example :
    ((place smooth buy_120 idle).caps ≡ limits)
    ⊎ (((reservation smooth buy_120 idle).1 ≢ allowed)
        × ((place smooth buy_120 idle).caps ≡ (reservation smooth buy_120 idle).0))
    ⊎ (((reservation smooth buy_120 idle).1 ≡ allowed)
        × ((place smooth buy_120 idle).caps
            ≡ release (usd 120) (is_buy buy_120) true (reservation smooth buy_120 idle).0))
unfolding place reserve_caps after_reserve fail claim lookup reserve add_fixed bytes_lt
place_not_sent_example = place_not_sent smooth buy_120 idle refl

place_halted_run :
    let t : Trader Fixed = record idle { halt = true } in
    ((place smooth buy_20 t).sent ≡ [])
    × ((place smooth buy_20 t).caps ≡ limits)
    × ((place smooth buy_20 t).placements ≡ [])
place_halted_run = place_halted smooth buy_20 (record idle { halt = true }) refl

place_retry_run :
    (claim (codes "prop-1") (place (record smooth { sign_fails = true }) buy_20 idle).placements).1
    ≡ true
unfolding claim lookup reserve add_fixed bytes_lt is_buy bytes_beq
place_retry_run =
    place_retry (record smooth { sign_fails = true }) buy_20 idle refl refl refl refl (inl refl)
      refl

place_cap_refused_run :
    ((place smooth buy_120 idle).sent ≡ [])
    × ((claim (codes "prop-1") (place smooth buy_120 idle).placements).1 ≡ false)
unfolding claim lookup reserve add_fixed bytes_lt is_buy bytes_beq
place_cap_refused_run = place_cap_refused smooth buy_120 idle refl refl refl (λ e. cc)
