-- ===== src/Security/Masking.antt =====
-- The PII masker (internal/core/service/security/security.go). Compiled regular expressions are
-- given by what `MatchString` and `ReplaceAllString` do; SHA-256 by the digest's bytes.
pub mod Text
pub mod Structs
pub mod Fields
pub mod Secrecy
