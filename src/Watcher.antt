-- ===== src/Watcher.antt =====
-- services/watcher: from raw exchange logs to published trades. `Decode`, `Engine`, `Backoff` and
-- `Chainwatch` are the packages of these names under internal, `Fills` is the second half of decode,
-- `Seen` is dedup, and `Address` is watchset with the addresses of pkg/chain.
pub mod Decode
pub mod Feeder
pub mod Fills
pub mod Backoff
pub mod Address
pub mod Seen
pub mod Engine
pub mod Chainwatch
