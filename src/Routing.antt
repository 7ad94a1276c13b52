-- ===== src/Routing.antt =====
-- internal/providers: the catalogue of model providers, and the routing of a request to one of them.
pub mod Profiles
pub mod Parsers
pub mod Checks
pub mod Catalog
pub mod Tables
pub mod Records
pub mod Adapters
pub mod Presets
pub mod Defaults
pub mod Select
pub mod Scan
pub mod Simulate
pub mod Updates
pub mod Keeps
