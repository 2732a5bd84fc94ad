-- ===== src/Ingest.antt =====
-- The ingestion service: the messages that it accepts, services/ingestion-service/internal/validate
-- (validate.go and v2.go), and what it answers the broker,
-- services/ingestion-service/internal/handler/handler.go.
mod Tests
pub mod Text
pub mod Topics
pub mod Types
pub mod Envelope
pub mod Payloads
pub mod Handler
pub mod Acks
