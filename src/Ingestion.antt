-- ===== src/Ingestion.antt =====
-- services/data-ingestion-service: market data from the broker's WebSocket into Kafka.
pub mod Integers
pub mod Parser
pub mod Client
