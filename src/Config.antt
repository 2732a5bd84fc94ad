-- ===== src/Config.antt =====
-- The configuration of the collector, services/snmp-collector/internal/config: its checks, its
-- defaults, the merge of the managed inventory and the reload.
mod Tests
pub mod Sample
pub mod Types
pub mod Dependencies
pub mod Colours
pub mod Cycles
pub mod Accepts
pub mod Filters
pub mod Inventory
pub mod Devices
pub mod Defaults
pub mod Validate
pub mod Load
pub mod Manager
pub mod Merge
pub mod Reload
pub mod Tracked
