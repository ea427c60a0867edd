-- ===== src/Shared.antt =====
-- shared/go: what the services share.
pub mod Lock
pub mod MarketData
