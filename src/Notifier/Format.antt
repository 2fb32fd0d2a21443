-- ===== src/Notifier/Format.antt =====
-- services/notifier/internal/format: the texts of the alerts. `fmt` and `int` on floats and math/big's
-- rational numbers are parameters. `shortenMiddle` counts runes, which are bytes here, as the ids are
-- ASCII; a time of 0 is Go's zero time.
pub mod Tests
use lobster_roll.Prelude.{
  ℕ, ◌+◌, ◌-◌, ◌/◌, Bool, true, false, List, [], ◌∷◌, ◌++◌, Option, none, some, GoString, codes,
  utf8, ◌≟◌, ◌==◌, bytes_eq, ltb, leb, length, take, drop, decimal, decimal_ℤ, utc_minutes,
  join_strings, strip_prefix, ℤ, pos, negsuc, ltb_ℤ, not, if◌then◌else◌, ◌&&◌, ◌||◌,
}
use lobster_roll.Float.{Float, ◌<?◌, ◌≤?◌, ◌⊕◌, ◌⊖◌, ◌⊗◌, ◌⊘◌, nought}
use lobster_roll.Bus.{TradeDetected, OrderProposal, ConsensusSignal}
use lobster_roll.Notifier.Positions.{equal_fold}

-- What the code uses of fmt, math/big and the conversion `int`: `%.nf`, `%+.nf`, truncation, and the
-- product of two numerals with two decimals.
pub record Display {ℓ} (F : Type ℓ) : Type ℓ where
  pub fixed : ℕ → F → GoString
  pub signed_fixed : ℕ → F → GoString
  pub truncate : F → ℤ
  pub is_rational : GoString → Bool
  pub product_text : GoString → GoString → GoString

pub record Market : Type 0 where
  pub question : GoString
  pub outcome : GoString
  pub slug : GoString
  pub found : Bool
  pub lookup_failed : Bool
  pub end_date_unix : ℕ

pub record WhaleStats {ℓ} (F : Type ℓ) : Type ℓ where
  pub win_rate : F
  pub resolved_markets : ℕ
  pub realized_pnl_usd : F
  pub portfolio_usd : F
  pub roi : F
  pub skill_score : ℕ
  pub fresh : Bool
  pub avg_clv : F
  pub clv_n : ℕ
  pub ok : Bool

pub record MyPosition {ℓ} (F : Type ℓ) : Type ℓ where
  pub title : GoString
  pub outcome : GoString
  pub slug : GoString
  pub current_value : F
  pub banner : GoString

pub shorten_hex : GoString → GoString
shorten_hex addr = if leb (length addr) 12 then addr else elim (strip_prefix (codes "0x") addr) [
  | none ↦ addr
  | some rest ↦ take 6 addr ++ utf8 "…" ++ drop (length addr - 4) addr
]

pub shorten_middle : GoString → ℕ → ℕ → GoString
shorten_middle s head tail =
    if leb (length s) (head + tail + 1)
    then s
    else take head s ++ utf8 "…" ++ drop (length s - tail) s

pub human_window : ℕ → GoString
human_window secs =
    if leb 3_600 secs then decimal (secs / 3_600) ++ codes "h" else decimal (secs / 60) ++ codes "m"

unfoldable pub lookup_line : Market → GoString → GoString
unfolding shorten_middle
lookup_line m token_id =
    if m.found
    then m.question ++ utf8 " → " ++ m.outcome
    else if m.lookup_failed
    then codes "Market lookup unavailable (token " ++ shorten_middle token_id 4 4 ++ codes ")"
    else codes "Unknown market (token " ++ shorten_middle token_id 4 4 ++ codes ")"

pub market_line : TradeDetected → Market → GoString
unfolding lookup_line
market_line td m = lookup_line m td.token_id

-- U+FE0F, which asks for the coloured form of a sign.
unfoldable pub variation : GoString
variation = 239 ∷ 184 ∷ 143 ∷ []

-- A line that is there if the test holds.
unfoldable pub line_if : Bool → GoString → List GoString
line_if b line = if b then line ∷ [] else []

pub side_label : GoString → GoString
side_label side = if equal_fold side (codes "buy") then codes "BUY" else codes "SELL"

pub event_link : GoString → GoString
event_link slug = utf8 "📊 https://polymarket.com/event/" ++ slug

module _ {ℓ} {F : Type ℓ} ⦃d : Float F⦄ (display : Display F) where
  open display use {fixed, signed_fixed, truncate, is_rational, product_text}

  unfoldable pub abbrev_magnitude : F → GoString
  abbrev_magnitude v =
      if d.of_ℕ 1_000_000 ≤? v
      then codes "$" ++ fixed 1 (v ⊘ d.of_ℕ 1_000_000) ++ codes "M"
      else if d.of_ℕ 1_000 ≤? v
      then codes "$" ++ fixed 1 (v ⊘ d.of_ℕ 1_000) ++ codes "k"
      else codes "$" ++ fixed 0 v

  pub abbrev_money : F → GoString
  unfolding abbrev_magnitude
  abbrev_money v = abbrev_magnitude (if v <? nought then d.neg v else v)

  pub signed_money : F → GoString
  unfolding abbrev_money
  signed_money v =
      if nought <? v
      then codes "+" ++ abbrev_money v
      else if v <? nought
      then codes "-" ++ abbrev_money v
      else codes "$0"

  unfoldable pub percent_text : ℤ → GoString
  percent_text n =
      if ltb_ℤ (pos 0) n
      then codes "+" ++ decimal_ℤ n ++ codes "%"
      else if ltb_ℤ n (pos 0)
      then decimal_ℤ n ++ codes "%"
      else codes "0%"

  pub signed_pct : F → GoString
  unfolding percent_text
  signed_pct frac =
      let p = frac ⊗ d.of_ℕ 100 in
      percent_text (if nought ≤? p then truncate (p ⊕ d.lit 1 2) else truncate (p ⊖ d.lit 1 2))

  pub notional : GoString → GoString → GoString
  notional size price =
      if not (is_rational size) || not (is_rational price)
      then codes "?"
      else product_text size price

  pub money_line : GoString → GoString → GoString
  unfolding notional
  money_line size price =
      let n = notional size price in
      if n ≟ codes "?"
      then utf8 "💵 $?"
      else utf8 "💵 $" ++ n ++ utf8 "  ·  " ++ size ++ codes " @ $" ++ price

  unfoldable pub clv_segment : WhaleStats F → GoString
  clv_segment ws =
      if ltb 0 ws.clv_n
      then utf8 " · CLV "
        ++ signed_fixed 1 (ws.avg_clv ⊗ d.of_ℕ 100)
        ++ codes "% (n="
        ++ decimal ws.clv_n
        ++ codes ")"
      else []

  -- The line, if there is one.
  pub stats_line : WhaleStats F → List GoString
  unfolding clv_segment signed_pct signed_money abbrev_money line_if variation
  stats_line ws = line_if ws.ok (
      utf8 "👤 SKILL "
      ++ decimal ws.skill_score
      ++ (if ws.fresh then utf8 " ✅" else utf8 " ⚠" ++ variation ++ codes "cooling")
      ++ utf8 " · "
      ++ decimal_ℤ (truncate (ws.win_rate ⊗ d.of_ℕ 100 ⊕ d.lit 1 2))
      ++ utf8 "% win · "
      ++ signed_pct ws.roi
      ++ codes " ROI"
      ++ clv_segment ws
      ++ utf8 " · realized "
      ++ signed_money ws.realized_pnl_usd
      ++ utf8 " · "
      ++ abbrev_money ws.portfolio_usd
      ++ codes " portfolio ("
      ++ decimal ws.resolved_markets
      ++ codes " mkts)")

  unfoldable pub headline : TradeDetected → GoString
  unfolding shorten_hex
  headline td =
      (if equal_fold td.side (codes "buy") then utf8 "🟢 ENTER (BUY)" else utf8 "🔴 EXIT (SELL)")
      ++ codes "  whale "
      ++ shorten_hex td.wallet

  unfoldable pub alert_lines : TradeDetected → Market → WhaleStats F → List GoString
  unfolding headline market_line line_if stats_line money_line event_link
  alert_lines td m ws =
      headline td
        ∷ market_line td m
        ∷ line_if (m.found && ltb 0 m.end_date_unix) (utf8 "🏁 game " ++ utc_minutes m.end_date_unix)
      ++ stats_line ws
      ++ money_line td.size td.price
        ∷ line_if (ltb 0 td.observed_at) (utf8 "🕒 " ++ utc_minutes td.observed_at)
      ++ line_if (m.found && not (m.slug ≟ [])) (event_link m.slug)

  pub format_alert : TradeDetected → Market → WhaleStats F → GoString
  unfolding alert_lines
  format_alert td m ws = join_strings (b'\n' ∷ []) (alert_lines td m ws)

  pub format_my_position_alert : TradeDetected → MyPosition F → WhaleStats F → GoString
  unfolding side_label shorten_hex abbrev_money notional stats_line line_if event_link
  format_my_position_alert td p ws = join_strings (b'\n' ∷ []) (
      p.banner
        ∷ (p.title
            ++ utf8 " → you hold "
            ++ p.outcome
            ++ codes " ("
            ++ abbrev_money p.current_value
            ++ codes ")")
        ∷ (codes "whale "
            ++ shorten_hex td.wallet
            ++ codes " "
            ++ side_label td.side
            ++ codes " $"
            ++ notional td.size td.price
            ++ codes " @ $"
            ++ td.price)
        ∷ stats_line ws
      ++ line_if (not (p.slug ≟ [])) (event_link p.slug))

  pub format_proposal : OrderProposal F → GoString
  unfolding side_label shorten_middle shorten_hex
  format_proposal p =
      utf8 "📋 Mirror "
      ++ side_label p.side
      ++ codes "  $"
      ++ fixed 2 p.size_usd
      ++ utf8 " @ ≤ $"
      ++ p.limit_price
      ++ codes "\ntoken "
      ++ shorten_middle p.token_id 4 4
      ++ codes "\nwhale "
      ++ shorten_hex p.source_trade.wallet
      ++ codes " filled "
      ++ p.source_trade.size
      ++ codes " @ $"
      ++ p.source_trade.price
      ++ codes "\nApprove?"

  pub format_consensus : ConsensusSignal F → Market → GoString
  unfolding side_label lookup_line abbrev_money human_window event_link
  format_consensus sig m =
      utf8 "🔥 CONSENSUS — "
      ++ decimal sig.count
      ++ codes " tracked wallets "
      ++ side_label sig.side
      ++ codes "\n"
      ++ lookup_line m sig.token_id
      ++ codes "\n"
      ++ decimal sig.count
      ++ utf8 " wallets · combined "
      ++ abbrev_money sig.combined_usd
      ++ utf8 " · "
      ++ human_window sig.window_secs
      ++ codes " window"
      ++ (if m.found && not (m.slug ≟ []) then codes "\n" ++ event_link m.slug else [])
