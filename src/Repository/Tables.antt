-- ===== src/Repository/Tables.antt =====
-- The tables of migrations/001_initial.sql that the statements of internal/repository read and
-- write: the rows of a table with a primary key are a map from that key.
pub mod Rows
use ufo_observation_command.Base.{
  ℤ, String, string_key, Bool, true, false, Option, none, some, List, Dict, get, put, is_some,
  if◌then◌else◌,
}
use ufo_observation_command.Domain.SurveyMission.{SurveyMission}
use ufo_observation_command.Domain.RecoveryJob.{RecoveryJob}
use ufo_observation_command.Domain.Operator.{ArrayOperator}
use ufo_observation_command.Domain.Assignment.{Assignment}
use ufo_observation_command.Domain.Validation.{AcousticBuoy, IntegrityIncident}
use ufo_observation_command.Repository.Types.{
  ActivationInput, AuditInput, SignalRecoveryReportInput,
}

pub record WindowRow : Type 0 where
  pub code : String
  pub status : String
  pub method : String
  pub capacity : ℤ
  pub started_at : Option ℤ
  pub completed_at : Option ℤ
  pub version : ℤ

pub record ReportRow : Type 0 where
  pub report : SignalRecoveryReportInput
  pub status : String
  pub reviewed_at : Option ℤ
  pub version : ℤ

pub record AssignmentRow : Type 0 where
  pub assignment : Assignment
  pub version : ℤ

-- `items` has pairs of a dive window and a job; `audits` has the newest event first.
pub record Tables : Type 0 where
  pub missions : Dict String SurveyMission
  pub buoys : Dict String AcousticBuoy
  pub jobs : Dict String RecoveryJob
  pub moorings : Dict String ActivationInput
  pub windows : Dict String WindowRow
  pub items : List (String × String)
  pub reports : Dict String ReportRow
  pub incidents : Dict String IntegrityIncident
  pub operators : Dict String ArrayOperator
  pub assignments : Dict String AssignmentRow
  pub audits : List AuditInput

-- `INSERT`: whether the key was free, and the rows after it.
unfoldable pub insert_row : {V : Type 0} → Dict String V → String → V → Bool × Dict String V
insert_row rows id row = if is_some (get rows id) then (false, rows) else (true, put rows id row)

-- `UPDATE … WHERE id = …`: whether a row passed the other tests, and the rows after it.
unfoldable pub update_row :
    {V : Type 0} → Dict String V → String → (V → Bool) → (V → V) → Bool × Dict String V
update_row rows id test change = elim (get rows id) [
  | none ↦ (false, rows)
  | some row ↦ if test row then (true, put rows id (change row)) else (false, rows)
]
