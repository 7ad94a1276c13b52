-- ===== src/Providers.antt =====
-- internal/providers: the events that a model provider streams back.
pub mod Json
pub mod Records
pub mod Events
pub mod ToolKeys
pub mod Stream
