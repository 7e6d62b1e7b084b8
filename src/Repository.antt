-- ===== src/Repository.antt =====
-- internal/repository: the interface to the tables, and its implementation in PostgreSQL.
pub mod Types
pub mod Tables
pub mod Driver
pub mod Missions
pub mod Jobs
pub mod Windows
pub mod Reports
pub mod Postgres
pub mod Policy
pub mod Expiry
pub mod Activation
pub mod Statement
mod Tests
