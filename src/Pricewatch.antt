-- ===== src/Pricewatch.antt =====
-- services/pricewatch: prices over time, and the closing-line value of observed trades. Times are unix
-- seconds from 1970 on.
pub mod Snapshots
pub mod Settle
pub mod Capture
