-- ===== src/Boeng.antt =====
-- The boeng package (boeng): operations, their names and fields, and their metrics.
pub mod Names
pub mod Fields
pub mod Gin
pub mod Http
pub mod Metrics
pub mod Run
pub mod Op
pub mod Mongo
pub mod Rabbit
pub mod Redis
pub mod Start
