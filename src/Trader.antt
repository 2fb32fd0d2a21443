-- ===== src/Trader.antt =====
-- services/trader: the only service that places orders. `ExecMode` is pkg/config/execmode.go,
-- `Caps` internal/caps, `Placements` internal/store, `Handler` internal/handler with internal/halt.
pub mod ExecMode
pub mod Caps
pub mod Order
pub mod Placements
pub mod Handler
