-- ===== src/Domain.antt =====
-- internal/domain: the rules of survey missions, recovery jobs, dive windows, assignments and the
-- roles of array operators. All of it is code without side effects.
pub mod Errors
pub mod SurveyMission
pub mod RecoveryJob
pub mod DiveWindow
pub mod StateMachine
pub mod Operator
pub mod Assignment
pub mod Bulk
pub mod Agreement
pub mod Distinct
pub mod Validation
pub mod ChamberLoad
pub mod Search
mod Tests
