-- ===== src/Oms.antt =====
-- services/order-management-service: rate limiting, risk checks, the order life cycle.
mod Fixtures
pub mod Limiter
pub mod Order
pub mod Repository
pub mod Broker
pub mod Executor
pub mod Risk
pub mod Handler
pub mod Interceptor
pub mod Server
