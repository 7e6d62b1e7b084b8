-- ===== src/Service/Command.antt =====
-- internal/service: the use cases of requests that write, one constructor for each, and what each
-- adds to the trail. Not among them are the jobs of the worker, MarkExpiredRecoveryJobs and
-- ActivateDueAssignments, and ReplayOr and IdempotentCreate, which run a function of their caller. A result that a use case returns is dropped here.
pub mod Audited
pub mod Atomic
use ufo_observation_command.Base.{
  ℤ, String, Bool, true, false, List, [], ◌∷◌, if◌then◌else◌, Method,
}
use ufo_observation_command.Base.Methods.{◌>>=◌, return}
use ufo_observation_command.Domain.Operator.{ArrayOperator}
use ufo_observation_command.Domain.Assignment.{Assignment}
use ufo_observation_command.Domain.Bulk.{RecoveryJobRequest}
use ufo_observation_command.Repository.Types.{
  Repository, RecoveryJobInput, ActivationInput, DiveWindowInput, SignalRecoveryReportInput,
  IntegrityIncidentInput,
}
use ufo_observation_command.Service.Contract.{Entry}
use ufo_observation_command.Service.Environment.{Environment, RequestMeta}
use ufo_observation_command.Service.Missions
use ufo_observation_command.Service.Missions.{CreateSurveyMissionRequest}
use ufo_observation_command.Service.Jobs
use ufo_observation_command.Service.Windows
use ufo_observation_command.Service.Reports
use ufo_observation_command.Service.Operators

pub data Command : Type 0 where
  create_survey_mission : CreateSurveyMissionRequest → Command
  schedule_survey_mission activate_survey_mission close_survey_mission : String → ℤ → Command
  create_recovery_job : RecoveryJobInput → Command
  complete_recovery_job archive_recovery_job : String → ℤ → Command
  activation_recovery_job accept_recovery_job : ActivationInput → ℤ → Command
  activation_checked accept_checked : ActivationInput → ℤ → Command
  create_recovery_jobs_bulk : List RecoveryJobRequest → Command
  create_dive_window : DiveWindowInput → List String → Command
  start_dive_window complete_dive_window cancel_dive_window : String → ℤ → Command
  submit_signal_recovery_report : SignalRecoveryReportInput → Command
  review_signal_recovery_report : String → String → Bool → ℤ → ℤ → Command
  open_integrity_incident : IntegrityIncidentInput → Command
  close_integrity_incident mark_integrity_incident : String → Command
  register_array_operator : String → String → Command
  rename_array_operator : String → String → Command
  assign_acoustic_buoy : Assignment → ArrayOperator → Command
  advance_assignment : String → String → ℤ → Command

-- A call whose result is dropped.
abbrev pub dropping : {W A : Type 0} → Method W A → Method W (Unit {0})
dropping m = m >>= λ _. return tt

module _ {W : Type 0} (repo : Repository W) (env : Environment W) (meta : RequestMeta) where
  unfoldable pub run : Command → Method W (Unit {0})
  unfolding Missions.create_survey_mission Missions.advance_survey_mission Jobs.create_recovery_job
      Jobs.move_recovery_job Jobs.activation_recovery_job Jobs.accept_recovery_job
      Jobs.activation_checked Jobs.accept_checked Jobs.create_recovery_jobs_bulk
      Windows.create_dive_window Windows.change_dive_window Reports.submit_signal_recovery_report
      Reports.review_signal_recovery_report Reports.open_integrity_incident
      Reports.close_integrity_incident Reports.mark_integrity_incident
      Operators.register_array_operator Operators.rename_array_operator
      Operators.assign_acoustic_buoy Operators.advance_assignment
  run (create_survey_mission input) = dropping (Missions.create_survey_mission repo env meta input)
  run (schedule_survey_mission id version) =
      Missions.advance_survey_mission repo env meta id "scheduled" version "schedule"
  run (activate_survey_mission id version) =
      Missions.advance_survey_mission repo env meta id "active" version "activate"
  run (close_survey_mission id version) =
      Missions.advance_survey_mission repo env meta id "closed" version "close"
  run (create_recovery_job input) = dropping (Jobs.create_recovery_job repo env meta input)
  run (complete_recovery_job id version) =
      Jobs.move_recovery_job repo env meta id version "completed" "complete"
  run (archive_recovery_job id version) =
      Jobs.move_recovery_job repo env meta id version "archived" "archive"
  run (activation_recovery_job input version) =
      Jobs.activation_recovery_job repo env meta input version
  run (accept_recovery_job input version) = Jobs.accept_recovery_job repo env meta input version
  run (activation_checked input version) = Jobs.activation_checked repo env meta input version
  run (accept_checked input version) = Jobs.accept_checked repo env meta input version
  run (create_recovery_jobs_bulk requests) =
      dropping (Jobs.create_recovery_jobs_bulk repo env meta requests)
  run (create_dive_window input task_ids) =
      dropping (Windows.create_dive_window repo meta input task_ids)
  run (start_dive_window id version) =
      Windows.change_dive_window repo meta id version "running" "start"
  run (complete_dive_window id version) =
      Windows.change_dive_window repo meta id version "completed" "complete"
  run (cancel_dive_window id version) =
      Windows.change_dive_window repo meta id version "cancelled" "cancel"
  run (submit_signal_recovery_report input) =
      dropping (Reports.submit_signal_recovery_report repo env meta input)
  run (review_signal_recovery_report id task_id accepted version task_version) =
      Reports.review_signal_recovery_report repo env meta id task_id accepted version task_version
  run (open_integrity_incident input) =
      dropping (Reports.open_integrity_incident repo env meta input)
  run (close_integrity_incident id) = Reports.close_integrity_incident repo env meta id
  run (mark_integrity_incident id) = Reports.mark_integrity_incident repo env meta id
  run (register_array_operator name role) =
      dropping (Operators.register_array_operator repo env meta name role)
  run (rename_array_operator id name) = Operators.rename_array_operator repo env meta id name
  run (assign_acoustic_buoy assignment operator) =
      Operators.assign_acoustic_buoy repo env meta assignment operator
  run (advance_assignment id next version) =
      Operators.advance_assignment repo env meta id next version

-- The entries that a use case leaves when it succeeds, the newest first.
unfoldable pub entries : RequestMeta → Command → List Entry
entries meta c =
    let one : String → String → List Entry =
      λ object_type action. (meta.request_id, object_type, action) ∷ [] in
    elim c [
      | create_survey_mission input ↦ one "acoustic_buoy_survey_mission" "create"
      | schedule_survey_mission id version ↦ one "acoustic_buoy_survey_mission" "schedule"
      | activate_survey_mission id version ↦ one "acoustic_buoy_survey_mission" "activate"
      | close_survey_mission id version ↦ one "acoustic_buoy_survey_mission" "close"
      | create_recovery_job input ↦ one "acoustic_buoy_task" "create"
      | complete_recovery_job id version ↦ one "acoustic_buoy_task" "complete"
      | archive_recovery_job id version ↦ one "acoustic_buoy_task" "archive"
      | activation_recovery_job input version ↦ one "acoustic_buoy_task" "activation"
      | accept_recovery_job input version ↦ one "acoustic_buoy_task" "accept"
      | activation_checked input version ↦ one "acoustic_buoy_task" "activation"
      | accept_checked input version ↦ one "acoustic_buoy_task" "accept"
      | create_recovery_jobs_bulk requests ↦ one "task_dive_window" "create_bulk"
      | create_dive_window input task_ids ↦ one "dive_window" "create"
      | start_dive_window id version ↦ one "dive_window" "start"
      | complete_dive_window id version ↦ one "dive_window" "complete"
      | cancel_dive_window id version ↦ one "dive_window" "cancel"
      | submit_signal_recovery_report input ↦ one "signal_recovery_report" "record"
      | review_signal_recovery_report id task_id accepted version task_version ↦
          if accepted
          then one "signal_recovery_report" "review"
          else (meta.request_id, "signal_recovery_report", "review") ∷ one "safety_alert" "open"
      | open_integrity_incident input ↦ one "safety_alert" "open"
      | close_integrity_incident id ↦ one "safety_alert" "close"
      | mark_integrity_incident id ↦ one "safety_alert" "start"
      | register_array_operator name role ↦ one "array_operator" "create"
      | rename_array_operator id name ↦ one "array_operator" "rename"
      | assign_acoustic_buoy assignment operator ↦ one "assignment" "create"
      | advance_assignment id next version ↦ one "assignment" next
    ]
