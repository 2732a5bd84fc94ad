-- ===== src/Derive.antt =====
-- The status derivation of the backend API, services/backend-api/internal/derive.
pub mod Status
pub mod Sites
pub mod Counts
pub mod Roots
pub mod Visits
mod Tests
