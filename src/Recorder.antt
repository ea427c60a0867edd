-- ===== src/Recorder.antt =====
-- services/data-recorder-service: market data from Kafka through buffers into the stores.
pub mod Buffer
pub mod Consumer
pub mod Writer
