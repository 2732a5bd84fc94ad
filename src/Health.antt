-- ===== src/Health.antt =====
-- The device health tracker, services/snmp-collector/internal/health.
pub mod Types
pub mod Evaluate
pub mod Order
pub mod Tracker
pub mod Verdict
pub mod Meets
pub mod Roots
pub mod Complete
pub mod Entry
pub mod Batch
pub mod Gauges
mod Tests
