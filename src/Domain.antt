-- ===== src/Domain.antt =====
-- The data that the parts of the library pass around (internal/core/domain/models.go): levels,
-- dynamic values, log entries and the pools that recycle entries.
pub mod Level
pub mod Value
pub mod Entry
pub mod EntryPool
pub mod FieldMaps
