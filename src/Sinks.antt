-- ===== src/Sinks.antt =====
-- The sinks (internal/adapter/outbound/sink): where entries go, and what is kept when an inner sink
-- or a remote end fails.
pub mod Buffered
pub mod Loki
pub mod Queued
pub mod Alerts
pub mod Files
pub mod Plain
pub mod Lumberjack
pub mod ClickHouse
