-- ===== src/Strategy.antt =====
-- services/strategy: from a detected trade to an order proposal.
pub mod Decide
pub mod Book
pub mod Handler
