-- ===== src/Service.antt =====
-- internal/service: the use cases over a repository. In each file the sections' parameters are the
-- repository and the environment of the service.
pub mod Environment
pub mod Contract
pub mod Trail
pub mod Checks
pub mod Missions
pub mod Jobs
pub mod Windows
pub mod Reports
pub mod Operators
pub mod Command
mod Tests
pub mod Postgres
pub mod Idempotency
