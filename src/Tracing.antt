-- ===== src/Tracing.antt =====
-- The tracing log interface (internal/logtrc, internal/adapter/outbound/sink/options): configuration
-- by options, the logger that it makes, and the fields of a value.
pub mod Options
pub mod Loggers
pub mod Extract
