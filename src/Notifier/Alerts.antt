-- ===== src/Notifier/Alerts.antt =====
-- services/notifier/internal/handler: a trade, or a consensus signal, becomes an alert that is sent
-- once. What the services and Telegram answer, and what the clocks read, is an argument of each call;
-- the log lines that end a call are its outcome. A call is one step, although the pool may overlap calls.
pub mod Keys
pub mod Retries
pub mod Marks
pub mod Bursts
pub mod Cooldown
pub mod Tests
use lobster_roll.Prelude.{
  ℕ, Bool, true, false, not, List, [], ◌∷◌, ◌++◌, Option, none, some, GoString, codes, utf8, ◌≟◌,
  bytes_eq, ltb, decimal, to_lower, join_strings, if◌then◌else◌, ◌&&◌,
}
use lobster_roll.Float.{Float, nought}
use lobster_roll.Bus.{TradeDetected, ConsensusSignal}
use lobster_roll.Dedup.TtlSet.{TtlSet, add, remove}
use lobster_roll.Notifier.Positions.{Cache, MatchKind, Holding, Verdict, match_trade}
use lobster_roll.Notifier.Format.{
  Display, Market, WhaleStats, MyPosition, format_alert, format_my_position_alert, format_consensus,
  variation,
}

-- EnrichTokenResponse, and the three ways a lookup ends.
pub record TokenInfo : Type 0 where
  pub market_question : GoString
  pub outcome : GoString
  pub market_slug : GoString
  pub end_date_unix : ℕ

pub data TokenReply : Type 0 where
  token_info : TokenInfo → TokenReply
  token_not_found token_error : TokenReply

-- lobsterrollv1.WalletStats; `stats_reply` has it with its Found flag.
pub record WalletStats {ℓ} (F : Type ℓ) : Type ℓ where
  pub win_rate : F
  pub resolved_markets : ℕ
  pub realized_pnl : F
  pub portfolio_value : F
  pub roi : F
  pub skill_score : ℕ
  pub fresh : Bool
  pub avg_clv : F
  pub clv_n : ℕ

pub data StatsReply {ℓ} (F : Type ℓ) : Type ℓ where
  stats_error : StatsReply F
  stats_reply : Bool → WalletStats F → StatsReply F

-- What the outside answers during one call. The clocks of the sets are in nanoseconds.
pub record Answers {ℓ} (F : Type ℓ) : Type ℓ where
  pub token : TokenReply
  pub wallet : StatsReply F
  pub unix : ℕ
  pub at_dedup : ℕ
  pub at_cooldown : ℕ
  pub at_position : ℕ
  pub alert_ok : Bool
  pub position_ok : Bool

pub data Outcome : Type 0 where
  duplicate cooled_down game_ended send_failed alerted : Outcome

-- Handler; `stats` tells whether the service is set, and `sent` is what the chats have received.
pub record Handler {ℓ} (F : Type ℓ) : Type ℓ where
  pub stats : Bool
  pub chat_id : GoString
  pub dedup : Option (TtlSet GoString)
  pub cooldown : Option (TtlSet GoString)
  pub consensus : Option (TtlSet GoString)
  pub my_pos : Option (Cache F)
  pub sent : List (GoString × GoString)

pub trade_key : TradeDetected → GoString
trade_key td =
    td.tx_hash
    ++ b':' ∷ decimal td.log_index
    ++ b':' ∷ to_lower td.wallet
    ++ b':' ∷ td.token_id
    ++ b':' ∷ to_lower td.side

pub cooldown_key : TradeDetected → GoString
cooldown_key td =
    codes "cd:" ++ (to_lower td.wallet ++ b':' ∷ (td.token_id ++ b':' ∷ to_lower td.side))

unfoldable pub position_prefix : GoString
position_prefix = codes "mypos:"

-- A set that may be nil: nothing is a repeat then.
pub add_to : Option (TtlSet GoString) → ℕ → GoString → Option (TtlSet GoString) × Bool
add_to none now key = (none, true)
add_to (some s) now key = (some (add s now key).0, (add s now key).1)

pub remove_from : Option (TtlSet GoString) → GoString → Option (TtlSet GoString)
remove_from none key = none
remove_from (some s) key = some (remove s key)

pub no_market : Market
no_market = record {
  question = [];
  outcome = [];
  slug = [];
  found = false;
  lookup_failed = false;
  end_date_unix = 0;
}

unfoldable pub market_from : TokenReply → Market
unfolding no_market
market_from (token_info r) = record {
  question = r.market_question;
  outcome = r.outcome;
  slug = r.market_slug;
  found = true;
  lookup_failed = false;
  end_date_unix = r.end_date_unix;
}
market_from token_not_found = no_market
market_from token_error = record no_market { lookup_failed = true }

pub resolve_market : GoString → TokenReply → Market
unfolding market_from no_market
resolve_market token_id reply = if token_id ≟ [] then no_market else market_from reply

unfoldable pub has_ended : Market → ℕ → Bool
has_ended m unix = m.found && ltb 0 m.end_date_unix && ltb m.end_date_unix unix

unfoldable pub banner_of : MatchKind → GoString
unfolding variation
banner_of MatchKind.opposite = utf8 "🆚 WHALE BETTING AGAINST YOUR POSITION"
banner_of _ = utf8 "⚠" ++ variation ++ utf8 " WHALE EXITING A MARKET YOU HOLD"

module _ {ℓ} {F : Type ℓ} where
  unfoldable pub deliver : Handler F → GoString → Handler F
  deliver h text = record h { sent = (h.chat_id, text) ∷ h.sent }

  pub consensus_key : ConsensusSignal F → GoString
  consensus_key sig =
      codes "consensus:"
      ++ sig.token_id
      ++ b':' ∷ to_lower sig.side
      ++ b':' ∷ join_strings (codes ",") sig.wallets

module _ {ℓ} {F : Type ℓ} ⦃d : Float F⦄ where
  pub no_stats : WhaleStats F
  no_stats = record {
    win_rate = nought;
    resolved_markets = 0;
    realized_pnl_usd = nought;
    portfolio_usd = nought;
    roi = nought;
    skill_score = 0;
    fresh = false;
    avg_clv = nought;
    clv_n = 0;
    ok = false;
  }

  unfoldable pub stats_from : StatsReply F → WhaleStats F
  unfolding no_stats
  stats_from stats_error = no_stats
  stats_from (stats_reply found r) = if not found then no_stats else record {
    win_rate = r.win_rate;
    resolved_markets = r.resolved_markets;
    realized_pnl_usd = r.realized_pnl;
    portfolio_usd = r.portfolio_value;
    roi = r.roi;
    skill_score = r.skill_score;
    fresh = r.fresh;
    avg_clv = r.avg_clv;
    clv_n = r.clv_n;
    ok = true;
  }

  pub lookup_stats : Handler F → GoString → StatsReply F → WhaleStats F
  unfolding stats_from no_stats
  lookup_stats h wallet reply =
      if not h.stats then no_stats else if wallet ≟ [] then no_stats else stats_from reply

module _ {ℓ} {F : Type ℓ} ⦃d : Float F⦄ (display : Display F) where
  unfoldable pub position_text : TradeDetected → MatchKind → Holding F → WhaleStats F → GoString
  unfolding banner_of
  position_text td kind hold ws =
      format_my_position_alert display td
        (record {
          title = hold.title;
          outcome = hold.outcome;
          slug = hold.slug;
          current_value = hold.current_value;
          banner = banner_of kind;
        })
        ws

  -- The alert of a trade that fires, with its own key.
  unfoldable pub position_alert :
      Handler F → TradeDetected → WhaleStats F → Answers F → MatchKind → Holding F → Handler F
  unfolding position_prefix add_to remove_from deliver position_text
  position_alert h td ws a kind hold =
      let key = position_prefix ++ trade_key td in
      let (set, fresh) = add_to h.dedup a.at_position key in
      if not fresh
      then record h { dedup = set }
      else if a.position_ok
      then deliver (record h { dedup = set }) (position_text td kind hold ws)
      else record h { dedup = remove_from set key }

  unfoldable pub fired :
      Handler F
      → TradeDetected
      → WhaleStats F
      → Answers F
      → Option (Holding F)
      → MatchKind
      → Bool
      → Handler F
  unfolding position_alert
  fired h td ws a none kind fire = h
  fired h td ws a (some hold) kind fire = if not fire then h else position_alert h td ws a kind hold

  unfoldable pub alert_for :
      Handler F → TradeDetected → WhaleStats F → Answers F → Option (Cache F) → Handler F
  unfolding fired
  alert_for h td ws a none = h
  alert_for h td ws a (some c) =
      let v = match_trade c td.token_id td.side td.wallet in fired h td ws a v.holding v.kind v.fire

  pub maybe_position_alert : Handler F → TradeDetected → WhaleStats F → Answers F → Handler F
  unfolding alert_for
  maybe_position_alert h td ws a = alert_for h td ws a h.my_pos

  -- The send, and what a failure undoes.
  unfoldable pub send_alert :
      Handler F → TradeDetected → Market → WhaleStats F → Answers F → Handler F × Outcome
  unfolding deliver remove_from
  send_alert h td market ws a =
      if a.alert_ok
      then (maybe_position_alert (deliver h (format_alert display td market ws)) td ws a, alerted)
      else (
        record h {
          dedup = remove_from h.dedup (trade_key td);
          cooldown = remove_from h.cooldown (cooldown_key td);
        },
        send_failed,
      )

  -- A trade that is neither a duplicate nor cooled down.
  unfoldable pub alert_trade : Handler F → TradeDetected → Answers F → Handler F × Outcome
  unfolding has_ended send_alert
  alert_trade h td a =
      let market = resolve_market td.token_id a.token in
      if has_ended market a.unix
      then (h, game_ended)
      else send_alert h td market (lookup_stats h td.wallet a.wallet) a

  unfoldable pub cool_down : Handler F → TradeDetected → Answers F → Handler F × Outcome
  unfolding alert_trade add_to
  cool_down h td a =
      let (set, fresh) = add_to h.cooldown a.at_cooldown (cooldown_key td) in
      if fresh
      then alert_trade (record h { cooldown = set }) td a
      else (record h { cooldown = set }, cooled_down)

  pub handle : Handler F → TradeDetected → Answers F → Handler F × Outcome
  unfolding cool_down add_to
  handle h td a =
      let (set, fresh) = add_to h.dedup a.at_dedup (trade_key td) in
      if fresh
      then cool_down (record h { dedup = set }) td a
      else (record h { dedup = set }, duplicate)

  unfoldable pub send_consensus : Handler F → ConsensusSignal F → Answers F → Handler F × Outcome
  unfolding deliver remove_from
  send_consensus h sig a =
      if a.alert_ok
      then (deliver h (format_consensus display sig (resolve_market sig.token_id a.token)), alerted)
      else (record h { consensus = remove_from h.consensus (consensus_key sig) }, send_failed)

  pub handle_consensus : Handler F → ConsensusSignal F → Answers F → Handler F × Outcome
  unfolding send_consensus add_to
  handle_consensus h sig a =
      let (set, fresh) = add_to h.consensus a.at_dedup (consensus_key sig) in
      if fresh
      then send_consensus (record h { consensus = set }) sig a
      else (record h { consensus = set }, duplicate)
