-- ===== src/Consensus.antt =====
-- services/consensus: when several tracked wallets trade the same outcome on the same side.
pub mod Window
pub mod Aggregator
