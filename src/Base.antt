-- ===== src/Base.antt =====
-- The base loggers (internal/core/service/base): the promotion of identifiers, the synchronous
-- logger and the asynchronous pipeline.
pub mod Promote
pub mod Unified
pub mod Pipeline
pub mod AsyncLog
