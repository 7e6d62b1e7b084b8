-- ===== src/Service/Command/Audited.antt =====
-- internal/service: every use case that succeeds leaves its entries in the trail, and no others.
use ufo_observation_command.Base.{true, false, List, Method}
use ufo_observation_command.Repository.Types.{Repository}
use ufo_observation_command.Service.Environment.{Environment, RequestMeta}
use ufo_observation_command.Service.Contract.{Contract, Entry, Adds}
use ufo_observation_command.Service.Trail.{bind-Quiet, return-Quiet}
use ufo_observation_command.Service.Missions.Audited.{
  create_survey_mission-Adds, advance_survey_mission-Adds,
}
use ufo_observation_command.Service.Jobs.Audited as JobTrail
use ufo_observation_command.Service.Windows.Audited.{
  create_dive_window-Adds, change_dive_window-Adds,
}
use ufo_observation_command.Service.Reports.Audited as ReportTrail
use ufo_observation_command.Service.Operators.Audited as OperatorTrail
use ufo_observation_command.Service.Command.{Command, run, entries, dropping}

module _ {W : Type 0} {repo : Repository W} {env : Environment W} (meta : RequestMeta)
    (c : Contract repo env) where
  drop-Adds :
      {A : Type 0} {m : Method W A} {es : List Entry}
      → Adds c.trail es m
      → Adds c.trail es (dropping m)
  drop-Adds a = bind-Quiet a λ _. return-Quiet tt

  pub run-Adds :
      (command : Command) → Adds c.trail (entries meta command) (run repo env meta command)
  unfolding run entries
  run-Adds (Command.create_survey_mission input) =
      drop-Adds (create_survey_mission-Adds meta c input)
  run-Adds (Command.schedule_survey_mission id version) =
      advance_survey_mission-Adds meta c id _ version _
  run-Adds (Command.activate_survey_mission id version) =
      advance_survey_mission-Adds meta c id _ version _
  run-Adds (Command.close_survey_mission id version) =
      advance_survey_mission-Adds meta c id _ version _
  run-Adds (Command.create_recovery_job input) =
      drop-Adds (JobTrail.create_recovery_job-Adds meta c input)
  run-Adds (Command.complete_recovery_job id version) =
      JobTrail.move_recovery_job-Adds meta c id version _ _
  run-Adds (Command.archive_recovery_job id version) =
      JobTrail.move_recovery_job-Adds meta c id version _ _
  run-Adds (Command.activation_recovery_job input version) =
      JobTrail.activation_recovery_job-Adds meta c input version
  run-Adds (Command.accept_recovery_job input version) =
      JobTrail.accept_recovery_job-Adds meta c input version
  run-Adds (Command.activation_checked input version) =
      JobTrail.activation_checked-Adds meta c input version
  run-Adds (Command.accept_checked input version) =
      JobTrail.accept_checked-Adds meta c input version
  run-Adds (Command.create_recovery_jobs_bulk requests) =
      drop-Adds (JobTrail.create_recovery_jobs_bulk-Adds meta c requests)
  run-Adds (Command.create_dive_window input task_ids) =
      drop-Adds (create_dive_window-Adds meta c input task_ids)
  run-Adds (Command.start_dive_window id version) = change_dive_window-Adds meta c id version _ _
  run-Adds (Command.complete_dive_window id version) = change_dive_window-Adds meta c id version _ _
  run-Adds (Command.cancel_dive_window id version) = change_dive_window-Adds meta c id version _ _
  run-Adds (Command.submit_signal_recovery_report input) =
      drop-Adds (ReportTrail.submit_signal_recovery_report-Adds meta c input)
  run-Adds (Command.review_signal_recovery_report id task_id true version task_version) =
      ReportTrail.review_signal_recovery_report-Adds meta c id task_id true version task_version
  run-Adds (Command.review_signal_recovery_report id task_id false version task_version) =
      ReportTrail.review_signal_recovery_report-Adds meta c id task_id false version task_version
  run-Adds (Command.open_integrity_incident input) =
      drop-Adds (ReportTrail.open_integrity_incident-Adds meta c input)
  run-Adds (Command.close_integrity_incident id) =
      ReportTrail.close_integrity_incident-Adds meta c id
  run-Adds (Command.mark_integrity_incident id) = ReportTrail.mark_integrity_incident-Adds meta c id
  run-Adds (Command.register_array_operator name role) =
      drop-Adds (OperatorTrail.register_array_operator-Adds meta c name role)
  run-Adds (Command.assign_acoustic_buoy assignment operator) =
      OperatorTrail.assign_acoustic_buoy-Adds meta c assignment operator
  run-Adds (Command.rename_array_operator id name) =
      OperatorTrail.rename_array_operator-Adds meta c id name
  run-Adds (Command.advance_assignment id next version) =
      OperatorTrail.advance_assignment-Adds meta c id next version
