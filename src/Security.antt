-- ===== src/Security.antt =====
-- PII masking, the audit trail and field access control (internal/core/service/security).
pub mod Masking
pub mod Audit
pub mod Access
pub mod Secured
