-- ===== src/Control.antt =====
-- The control server of the collector, services/snmp-collector/internal/control: the confirmation
-- tokens (pending.go), and the mutations of the managed inventory that they guard (handlers.go).
mod Tests
pub mod Pending
pub mod Mutations
pub mod Handlers
pub mod Tokens
pub mod Commits
