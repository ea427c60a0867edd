-- ===== src/Oms/Risk.antt =====
-- services/order-management-service/internal/risk: the checks that an order passes before it goes to
-- the broker.
pub mod Error
pub mod Match
pub mod Rules
pub mod Duplicates
pub mod Engine
