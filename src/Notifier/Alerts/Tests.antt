-- ===== src/Notifier/Alerts/Tests.antt =====
-- Runs of the handler, and examples for its theorems.
use lobster_roll.Prelude.{
  ℕ, ◌≡◌, refl, ◌⊎◌, Bool, true, false, [], ◌∷◌, some, GoString, codes, pos, arith, length, has,
  to_lower, trim_space, insert, lookup, bytes_beq,
}
use lobster_roll.Float.{Fixed, fixed_float}
use lobster_roll.Bus.{TradeDetected, ConsensusSignal}
use lobster_roll.Dedup.TtlSet.{TtlSet, add, remove}
use lobster_roll.Notifier.Positions.{match_trade, replace, new_cache}
use lobster_roll.Notifier.Positions.Tests.{cache}
use lobster_roll.Notifier.Format.Tests.{display}
use lobster_roll.Notifier.Alerts.{
  Answers, Handler, token_info, stats_error, alerted, duplicate, cooled_down, send_failed, handle,
  handle_consensus, resolve_market, maybe_position_alert, cooldown_key, trade_key,
}
use lobster_roll.Notifier.Alerts.Keys.{match_trade-cooldown_key}
use lobster_roll.Notifier.Alerts.Retries.{handle-retries, handle_consensus-retries}
use lobster_roll.Notifier.Alerts.Marks.{here, handles, signals}
use lobster_roll.Notifier.Alerts.Bursts.{handle-Reach}
use lobster_roll.Notifier.Alerts.Cooldown.{handle-burst}

-- A whale sells what the user holds.
abbrev trade : TradeDetected
trade = record {
  wallet = codes "0xwhale";
  token_id = codes "tokA";
  side = codes "sell";
  price = codes "0.60";
  size = codes "100";
  tx_hash = codes "0x9";
  log_index = 4;
  block_number = 100;
  observed_at = 0;
  backfilled = false;
}

abbrev next_fill : TradeDetected
next_fill = record trade { tx_hash = codes "0xa"; side = codes "SELL" }

abbrev signal : ConsensusSignal Fixed
signal = record {
  token_id = codes "tokA";
  side = codes "buy";
  wallets = codes "0x1" ∷ codes "0x2" ∷ [];
  count = 2;
  combined_usd = some (pos 5_000_000);
  window_secs = 3_600;
  observed_at = 0;
}

abbrev set : TtlSet GoString
set = record { ttl = 1_000; exp = []; ops = 0 }

abbrev handler : Handler Fixed
handler = record {
  stats = false;
  chat_id = codes "42";
  dedup = some set;
  cooldown = some set;
  consensus = some set;
  my_pos = some cache;
  sent = [];
}

-- The market is open; every clock reads `now`.
abbrev answers : ℕ → Bool → Answers Fixed
answers now ok = record {
  token = token_info (record {
    market_question = codes "Who wins?";
    outcome = codes "Yes";
    market_slug = codes "game";
    end_date_unix = 2_000;
  });
  wallet = stats_error;
  unix = 1_000;
  at_dedup = now;
  at_cooldown = now;
  at_position = now;
  alert_ok = ok;
  position_ok = ok;
}

abbrev after : Handler Fixed
after = (handle display handler trade (answers 10 true)).0

outcomes :
    ((handle display handler trade (answers 10 true)).1 ≡ alerted)
    × ((handle display handler trade (answers 10 false)).1 ≡ send_failed)
unfolding handle add remove lookup resolve_market bytes_beq
outcomes = (refl, refl)

-- The alert of the trade, and the alert of the user's position.
two_messages : length after.sent ≡ 2
unfolding handle add lookup resolve_market bytes_beq maybe_position_alert match_trade to_lower
    replace new_cache trim_space insert trade_key
two_messages = refl

match_trade-cooldown_key_run :
    match_trade cache (codes "tokA") (codes "sell") (codes "0xwhale")
    ≡ match_trade cache (codes "tokA") (codes "SELL") (codes "0xwhale")
unfolding has to_lower cooldown_key
match_trade-cooldown_key_run =
    match_trade-cooldown_key cache trade next_fill refl refl refl refl refl

handle-retries_example :
    ((handle display handler trade (answers 10 false)).0.sent ≡ [])
    × ((handle display
          (handle display handler trade (answers 10 false)).0
          trade
          (answers 20 true)).1
        ≡ alerted)
unfolding handle add remove lookup resolve_market bytes_beq
handle-retries_example =
    handle-retries display handler trade (answers 10 false) (answers 20 true) refl refl refl

handle_consensus-retries_run :
    ((handle_consensus display handler signal (answers 10 false)).0.sent ≡ [])
    × ((handle_consensus display
          (handle_consensus display handler signal (answers 10 false)).0
          signal
          (answers 20 true)).1
        ≡ alerted)
unfolding handle_consensus add remove lookup
handle_consensus-retries_run =
    handle_consensus-retries display handler signal (answers 10 false) (answers 20 true) refl refl

-- Another fill and a signal come between.
abbrev later : Handler Fixed
later =
    (handle_consensus display (handle display after next_fill (answers 500 true)).0 signal
      (answers 600 true)).0

handle-Reach_example :
    ((handle display later trade (answers 900 true)).1 ≡ duplicate)
    × ((handle display later trade (answers 900 true)).0.sent ≡ later.sent)
unfolding handle add remove lookup resolve_market bytes_beq
handle-Reach_example =
    handle-Reach display handler later trade (answers 10 true) (answers 900 true) set (codes "9")
      refl refl (omega arith) refl (omega arith)
      (signals signal (answers 600 true)
        (handles next_fill (answers 500 true) (omega arith, omega arith) here))
      (omega arith)

handle-burst_example :
    ((handle display later next_fill (answers 900 true)).1 ≡ duplicate)
    ⊎ ((handle display later next_fill (answers 900 true)).1 ≡ cooled_down)
unfolding handle add remove lookup resolve_market bytes_beq cooldown_key to_lower
handle-burst_example =
    handle-burst display handler later trade next_fill (answers 10 true) (answers 900 true) set refl
      (omega arith) refl
      (signals signal (answers 600 true) (handles next_fill (answers 500 true) (omega arith) here))
      refl (omega arith)
