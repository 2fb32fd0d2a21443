-- ===== src/Leaderboard.antt =====
-- services/leaderboard: which wallets are followed, and who is told.
pub mod Selection
pub mod History
pub mod Skill
pub mod Records
pub mod Syncer
pub mod Watchset
pub mod Stream
pub mod Reads
