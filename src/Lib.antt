-- ===== src/Lib.antt =====
-- LobsterRoll: a verification of its core.
--
-- LobsterRoll watches the trades of chosen wallets on the Polymarket exchange and copies them. Its
-- services talk over a message bus: the watcher decodes exchange logs into detected trades; the
-- strategy turns a trade into an order proposal; the notifier asks the operator to approve it; the
-- trader places it, once, within its caps; the consensus service signals when several wallets make
-- the same trade, and the notifier tells the operator of trades and signals; the leaderboard rates
-- wallets and streams the set to follow to the watcher. Shared engines size a stake and manage an open position.
--
-- Files, each with the source that it models:
--   Bus               pkg/bus/events.go, the messages
--   Float             float64 as an interface, its laws, and a fixed-point instance for runs
--   Exit              pkg/exit: `Decide` is `decide`, `clampFrac` is `clamp_frac`
--   Sizing            pkg/sizing: `Size` is `size`, cut at its caps
--   Dedup             pkg/dedup: GenSet (`Add` is `add`) and TtlSet (`Add`, `Remove`)
--   Consensus         services/consensus/internal: Window is the store (`Record` is `record_trade`,
--                     `decideFire` is `decide_fire`), Aggregator is the handler
--   Trader            ExecMode is pkg/config/execmode.go; under services/trader/internal, Caps is
--                     caps, Placements is store, Handler is handler with halt (`place`,
--                     `OnApproved`, `OnProposed`), Order is order (`FromProposal`, `Sign`)
--   Watcher           under services/watcher/internal: Decode and Fills are decode, Seen is dedup,
--                     Engine is engine (`ProcessBatch`), Chainwatch is chainwatch (`processBatch`,
--                     `backfill`; `runLive` is Chainwatch.Live, `cycle` is
--                     Chainwatch.Cycle), Backoff is backoff, Address is watchset with
--                     pkg/chain/address.go, Feeder is feeder (`Run` is `round`)
--   Strategy          under services/strategy/internal: Decide is decide, Book is book, Handler is
--                     handler with sizer
--   Pricewatch        under services/pricewatch/internal: Snapshots is store (`Nearest`), Settle is
--                     settle (`Run` is `settle_run`) with clv and the trades of store, Capture is
--                     capture (`Poll`) with the loops of services/pricewatch/main.go
--   Leaderboard       under services/leaderboard/internal: Selection is selection (`Select` is
--                     `select`), History is stats (`Compute` is `compute`), Skill is skill
--                     (`Shrink`, `Fresh`), Watchset and Records are store (`Replace`, `UpsertStats`),
--                     Syncer is syncer (`refresh`), Stream is server (`Broadcast`,
--                     `StreamWatchset`), Reads is its `GetWatchset` and `GetWalletStats`
--   Notifier          under services/notifier/internal: Approval is approval, Positions is
--                     positions (`Match` is `match_trade`), Format is format, Alerts is handler
--                     (`Handle`, `HandleConsensus`), Dispatch is dispatch (`Submit`, `Drain`)
--   Enrichment        services/enrichment/internal/server and cache (`EnrichToken`)
--   Prelude           shared helpers: tests on numbers, lists, maps, sorting, strings, integers
-- A definition carries the name of the Go function in this library's spelling. A file's folder holds
-- its theorems, named for what they are about, and its Tests, with runs on concrete inputs.
--
-- How the code is modelled. A struct is a record and an operation on it takes and returns it; what
-- an operation sends or stores outside is a list in the state. Whether an outside call succeeds and
-- what it answers is an argument, or a function of the number of the call. A mutex is not modelled
-- where the operation holds it throughout; the approval gate gives it up while it posts a proposal, so
-- that operation is two steps. Its other lock sections are joined to one step for each operation, and the
-- calls of a handler follow one another, where the code may overlap them. A Go map is an association list or a list of keys. A
-- string is the list of its bytes and is ASCII where its case or its white space matters.
--
-- Numbers. uint64 arithmetic keeps its wrap-around where it can occur; a big.Int is a natural
-- number, as the code reads them from unsigned words. float64 is any type with the operations of
-- `Float`; the laws that a theorem needs are named hypotheses (`IsOrdered`, `IsRounded`), which the
-- fixed-point instance with a NaN fulfils.
--
-- Loops are structural recursion, but for the backfill and the digits of a number, which take fuel:
-- the backfill needs one round for each block of its range and one more, and a number has no more
-- digits than its value and one.
--
-- Parameters: go-ethereum's hashes and addresses (`Eth`), strconv and math on floats (`Numerals`,
-- `Reals`), fmt on floats and math/big (`Display`, `BigFloat`, `Amounts`), SHA-256, Keccak-256 and the
-- signature of a digest, SQLite as tables that fail or not.
--
-- Not modelled: HTTP and gRPC clients, configuration, keys, the set-up of processes, metrics and
-- logging, which are input and output or glue.
pub mod Prelude
pub mod Bus
pub mod Float
pub mod Exit
pub mod Sizing
pub mod Dedup
pub mod Consensus
pub mod Trader
pub mod Watcher
pub mod Notifier
pub mod Strategy
pub mod Leaderboard
pub mod Pricewatch
pub mod Enrichment
