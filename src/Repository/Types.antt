-- ===== src/Repository/Types.antt =====
-- internal/repository/repository.go: what is written to the tables, and the interface `Repository`
-- that the services use, together with the methods that they find in it by a type assertion.
-- A method is a function of a world `W`; the context of a call is in the world.
use ufo_observation_command.Base.{ℕ, ℤ, String, Bool, Option, List, Method}
use ufo_observation_command.Domain.SurveyMission.{SurveyMission}
use ufo_observation_command.Domain.RecoveryJob.{RecoveryJob}
use ufo_observation_command.Domain.Operator.{ArrayOperator}
use ufo_observation_command.Domain.Assignment.{Assignment}

pub record AcousticBuoyInput : Type 0 where
  pub survey_mission_id : String
  pub code : String
  pub arrayops_lane : String
  pub required_successes : ℤ

pub record RecoveryJobInput : Type 0 where
  pub survey_mission_id : String
  pub acoustic_buoy_id : String
  pub task_code : String
  pub expires_at : ℤ

pub record ActivationInput : Type 0 where
  pub recovery_job_id : String
  pub from_operator : Option String
  pub to_operator : String
  pub location : String
  pub recorded_at : ℤ
  pub note : String

pub record DiveWindowInput : Type 0 where
  pub code : String
  pub method : String
  pub capacity : ℤ

-- The scores are the bits of floating-point numbers.
pub record SignalRecoveryReportInput : Type 0 where
  pub recovery_job_id : String
  pub dive_window_id : String
  pub recorder_id : String
  pub risk_score : ℕ
  pub scale : String
  pub alert_threshold : ℕ
  pub observed_at : ℤ

pub record IntegrityIncidentInput : Type 0 where
  pub recovery_job_id : String
  pub kind : String
  pub reason : String
  pub due_at : ℤ

-- `Detail` is the text of a JSON document.
pub record AuditInput : Type 0 where
  pub request_id : String
  pub array_operator_id : Option String
  pub object_type : String
  pub object_id : String
  pub action : String
  pub outcome : String
  pub detail : String

-- `in_tx` runs a function on the repository of a transaction. Its methods are the same statements
-- on the same tables, so the record stands for both.
pub record Repository (W : Type 0) : Type 1 where
  pub in_tx : {A : Type 0} → Method W A → Method W A
  pub create_survey_mission : SurveyMission → Method W (Unit {0})
  pub get_survey_mission : String → Method W SurveyMission
  pub advance_survey_mission : String → String → ℤ → Method W (Unit {0})
  pub create_acoustic_buoy : AcousticBuoyInput → Method W String
  pub validate_placement : String → String → Method W (Unit {0})
  pub create_recovery_job : RecoveryJobInput → Method W RecoveryJob
  pub get_recovery_job : String → Method W RecoveryJob
  pub move_recovery_job : String → String → ℤ → ℤ → Method W (Unit {0})
  pub record_activation : ActivationInput → Method W (Unit {0})
  pub create_dive_window : DiveWindowInput → Method W String
  pub attach_recovery_jobs : String → List String → Method W (Unit {0})
  pub change_dive_window : String → String → ℤ → Method W (Unit {0})
  pub validate_report_target : String → String → Method W (Unit {0})
  pub create_signal_recovery_report : SignalRecoveryReportInput → Method W String
  pub report_task_id : String → Method W String
  pub review_report_record : String → Bool → ℤ → ℤ → Method W (Unit {0})
  pub create_integrity_incident : IntegrityIncidentInput → Method W String
  pub close_integrity_incident : String → ℤ → Method W (Unit {0})
  pub mark_integrity_incident : String → Method W (Unit {0})
  pub create_array_operator : ArrayOperator → Method W (Unit {0})
  pub get_array_operator : String → Method W ArrayOperator
  pub rename_array_operator : String → String → Method W (Unit {0})
  pub create_assignment : Assignment → Method W (Unit {0})
  pub advance_assignment : String → String → ℤ → Method W (Unit {0})
  pub write_audit : AuditInput → Method W (Unit {0})
