-- ===== src/Util.antt =====
-- The helpers of internal/util: request identifiers in a context.
pub mod Context
pub mod Json
