-- ===== src/Repository/Statement.antt =====
-- internal/repository: the statements that write missions, buoys, operators, assignments, jobs,
-- windows, reports, incidents and audit events, one constructor for each, and what a sequence of them
-- does. Transactions interleave by statements, so a sequence stands for any schedule of transactions
-- that commit; those that roll back leave nothing and are left out.
pub mod Slots
pub mod Versions
use ufo_observation_command.Base.{ℕ, ℤ, String, Bool, true, List, [], ◌∷◌}
use ufo_observation_command.Domain.SurveyMission.{SurveyMission}
use ufo_observation_command.Domain.RecoveryJob.{RecoveryJob}
use ufo_observation_command.Domain.Operator.{ArrayOperator}
use ufo_observation_command.Domain.Assignment.{Assignment}
use ufo_observation_command.Repository.Types.{
  AcousticBuoyInput, RecoveryJobInput, ActivationInput, DiveWindowInput, SignalRecoveryReportInput,
  IntegrityIncidentInput, AuditInput,
}
use ufo_observation_command.Repository.Tables.{Tables}
use ufo_observation_command.Repository.Missions
use ufo_observation_command.Repository.Jobs
use ufo_observation_command.Repository.Activation
use ufo_observation_command.Repository.Expiry
use ufo_observation_command.Repository.Windows
use ufo_observation_command.Repository.Reports

pub data Statement : Type 0 where
  insert_mission : SurveyMission → Statement
  set_mission : String → String → ℤ → Statement
  insert_buoy : String → AcousticBuoyInput → Statement
  insert_operator : ArrayOperator → Statement
  insert_assignment : Assignment → Statement
  set_assignment : List String → String → String → ℤ → Statement
  set_name : String → String → Statement
  set_role : String → String → Statement
  activate_rows : (String → Bool) → ℤ → ℕ → Statement
  insert_job : String → RecoveryJobInput → Statement
  set_job : String → String → ℤ → ℤ → Statement
  complete_job : String → String → ℤ → ℤ → Statement
  insert_mooring : String → ActivationInput → Statement
  insert_item : String → String → Statement
  start_job : String → ℤ → Statement
  expire_job : String → Statement
  insert_window : String → DiveWindowInput → Statement
  cancel_window : String → ℤ → ℤ → Statement
  set_window : String → String → String → ℤ → ℤ → Statement
  insert_report : String → SignalRecoveryReportInput → Statement
  review_report : String → Bool → ℤ → ℤ → Statement
  insert_incident : String → IntegrityIncidentInput → Statement
  close_incident : String → ℤ → Statement
  mark_incident : String → Statement
  insert_audit : AuditInput → Statement

-- Whether the statement affected its row, and the tables after it.
unfoldable pub execute : Statement → Tables → Bool × Tables
unfolding Missions.insert_mission Missions.set_mission Missions.insert_buoy Missions.insert_operator
    Missions.insert_assignment Missions.set_assignment Missions.set_name Missions.set_role
    Activation.activate_rows Expiry.expire_job Jobs.new_job Jobs.insert_job Jobs.set_job
    Jobs.complete_job Jobs.insert_mooring Jobs.insert_item Jobs.start_job Windows.insert_window
    Windows.cancel_window Windows.set_window Reports.insert_report Reports.review_report
    Reports.insert_incident Reports.close_incident Reports.mark_incident Reports.insert_audit
execute (insert_mission m) = Missions.insert_mission m
execute (set_mission id status version) = Missions.set_mission id status version
execute (insert_buoy id input) = Missions.insert_buoy id input
execute (insert_operator o) = Missions.insert_operator o
execute (insert_assignment a) = Missions.insert_assignment a
execute (set_assignment sources id next version) = Missions.set_assignment sources id next version
execute (set_name id name) = Missions.set_name id name
execute (set_role id role) = Missions.set_role id role
execute (activate_rows locked now limit) =
    λ t. (true, (Activation.activate_rows locked now limit t).1)
execute (insert_job id input) = Jobs.insert_job (Jobs.new_job id input)
execute (set_job id status version now) = Jobs.set_job id status version now
execute (complete_job id status version now) = Jobs.complete_job id status version now
execute (insert_mooring id input) = Jobs.insert_mooring id input
execute (insert_item window_id task_id) = Jobs.insert_item window_id task_id
execute (start_job id now) = Jobs.start_job id now
execute (expire_job id) = Expiry.expire_job id
execute (insert_window id input) = Windows.insert_window id input
execute (cancel_window id version now) = Windows.cancel_window id version now
execute (set_window source id status version now) = Windows.set_window source id status version now
execute (insert_report id input) = Reports.insert_report id input
execute (review_report id accepted version now) = Reports.review_report id accepted version now
execute (insert_incident id input) = Reports.insert_incident id input
execute (close_incident id now) = Reports.close_incident id now
execute (mark_incident id) = Reports.mark_incident id
execute (insert_audit event) = Reports.insert_audit event

unfoldable pub execute_all : List Statement → Tables → Tables
unfolding execute
execute_all [] t = t
execute_all (s ∷ statements) t = execute_all statements (execute s t).1
