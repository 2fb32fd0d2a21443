-- ===== src/Notifier.antt =====
-- services/notifier: the gate that asks the operator, the positions of the user, the texts of the
-- alerts, the handler that sends them, and the pool that it runs on.
pub mod Approval
pub mod Dispatch
pub mod Positions
pub mod Format
pub mod Alerts
