-- ===== src/Strategy.antt =====
-- Filters, samplers and maskers (internal/core/service/strategy) and the logger that applies them.
pub mod Strategies
pub mod Manager
pub mod Logger
