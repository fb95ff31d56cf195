-- ===== src/Tests.antt =====
-- Runs of the theorems at concrete inputs.
pub mod Sample
pub mod Queries
pub mod Rows
pub mod Servers
pub mod Points
pub mod Connectors
pub mod Columns
pub mod Stores
pub mod Builders
pub mod Sequences
pub mod Plugins
pub mod Lists
pub mod Modules
