-- ===== src/Examples.antt =====
-- Concrete inputs of the theorems: scenarios and tests, by the part of the program.
pub mod Pipelines
pub mod Loggers
pub mod Entries
pub mod Secrets
pub mod Sinking
pub mod Operations
pub mod Reports
pub mod Telemetry
pub mod Integrations
pub mod Configurations
