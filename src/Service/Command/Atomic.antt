-- ===== src/Service/Command/Atomic.antt =====
-- internal/service: a use case that fails leaves the data as they were.
use ufo_observation_command.Base.{ℤ, Result, Method}
use ufo_observation_command.Base.Methods.{◌>>=◌, ◌>>◌, lift}
use ufo_observation_command.Repository.Types.{Repository}
use ufo_observation_command.Service.Environment
use ufo_observation_command.Service.Environment.{Environment, RequestMeta}
use ufo_observation_command.Service.Contract.{Contract, Atomic}
use ufo_observation_command.Service.Trail.{
  lift-Inert, get_now-Inert, get_wall-Inert, bind-Atomic, then-Atomic,
}
use ufo_observation_command.Service.Missions
use ufo_observation_command.Service.Jobs
use ufo_observation_command.Service.Windows
use ufo_observation_command.Service.Reports
use ufo_observation_command.Service.Operators
use ufo_observation_command.Service.Command.{Command, run, dropping}

module _ {W : Type 0} {repo : Repository W} {env : Environment W} (meta : RequestMeta)
    (c : Contract repo env) where
  drop-Atomic :
      {A : Type 0} {m : Method W A}
      → Atomic c.data_of c.Applied m
      → Atomic c.data_of c.Applied (dropping m)
  drop-Atomic a = then-Atomic (λ _. tt) a

  check-Atomic :
      {A : Type 0} (r : Result (Unit {0})) {m : Method W A}
      → Atomic c.data_of c.Applied m
      → Atomic c.data_of c.Applied (lift r >> m)
  check-Atomic r a = bind-Atomic (lift-Inert r) λ _. a

  create_survey_mission-Atomic :
      (input : Missions.CreateSurveyMissionRequest)
      → Atomic c.data_of c.Applied (Missions.create_survey_mission repo env meta input)
  unfolding Missions.create_survey_mission Missions.write_survey_mission
  create_survey_mission-Atomic input = check-Atomic _ (
      check-Atomic _ (
        check-Atomic _ (
          check-Atomic _ (
            check-Atomic _ (
              bind-Atomic c.new_string-Inert λ id.
                bind-Atomic (get_now-Inert env)
                  λ now. check-Atomic _ (then-Atomic _ (c.in_tx-Atomic _)))))))

  record_checked-Atomic :
      {A : Type 0} (r : ℤ → ℤ → Result (Unit {0})) (m : ℤ → Method W A)
      → ((now : ℤ) → Atomic c.data_of c.Applied (m now))
      → Atomic c.data_of c.Applied (
          Environment.get_now env >>= λ now.
          Environment.get_wall env >>= λ wall. lift (r now wall) >> m now)
  record_checked-Atomic r m a =
      bind-Atomic (get_now-Inert env)
        λ now. bind-Atomic (get_wall-Inert env) λ wall. check-Atomic _ (a now)

  pub run-IsAtomic : (command : Command) → Atomic c.data_of c.Applied (run repo env meta command)
  unfolding run Missions.advance_survey_mission Jobs.create_recovery_job Jobs.move_recovery_job
      Jobs.activation_recovery_job Jobs.accept_recovery_job Jobs.record_move Jobs.activation_checked
      Jobs.accept_checked Jobs.create_recovery_jobs_bulk Jobs.write_jobs Windows.create_dive_window
      Windows.write_dive_window Windows.change_dive_window Reports.submit_signal_recovery_report
      Reports.write_report Reports.review_signal_recovery_report Reports.open_integrity_incident
      Reports.write_incident Reports.close_integrity_incident Reports.mark_integrity_incident
      Operators.register_array_operator Operators.write_operator Operators.assign_acoustic_buoy
      Operators.rename_array_operator Operators.advance_assignment
  run-IsAtomic (Command.create_survey_mission input) =
      drop-Atomic (create_survey_mission-Atomic input)
  run-IsAtomic (Command.schedule_survey_mission id version) = c.in_tx-Atomic _
  run-IsAtomic (Command.activate_survey_mission id version) = c.in_tx-Atomic _
  run-IsAtomic (Command.close_survey_mission id version) = c.in_tx-Atomic _
  run-IsAtomic (Command.create_recovery_job input) =
      drop-Atomic
        (bind-Atomic (get_now-Inert env) λ now. check-Atomic _ (check-Atomic _ (c.in_tx-Atomic _)))
  run-IsAtomic (Command.complete_recovery_job id version) = c.in_tx-Atomic _
  run-IsAtomic (Command.archive_recovery_job id version) = c.in_tx-Atomic _
  run-IsAtomic (Command.activation_recovery_job input version) = c.in_tx-Atomic _
  run-IsAtomic (Command.accept_recovery_job input version) = c.in_tx-Atomic _
  run-IsAtomic (Command.activation_checked input version) =
      record_checked-Atomic _ _ λ now. c.in_tx-Atomic _
  run-IsAtomic (Command.accept_checked input version) =
      record_checked-Atomic _ _ λ now. c.in_tx-Atomic _
  run-IsAtomic (Command.create_recovery_jobs_bulk requests) = drop-Atomic (
      bind-Atomic (get_now-Inert env)
        λ now. check-Atomic _ (check-Atomic _ (then-Atomic _ (c.in_tx-Atomic _))))
  run-IsAtomic (Command.create_dive_window input task_ids) =
      drop-Atomic
        (check-Atomic _ (check-Atomic _ (check-Atomic _ (check-Atomic _ (c.in_tx-Atomic _)))))
  run-IsAtomic (Command.start_dive_window id version) = c.in_tx-Atomic _
  run-IsAtomic (Command.complete_dive_window id version) = c.in_tx-Atomic _
  run-IsAtomic (Command.cancel_dive_window id version) = c.in_tx-Atomic _
  run-IsAtomic (Command.submit_signal_recovery_report input) =
      drop-Atomic (check-Atomic _ (check-Atomic _ (c.in_tx-Atomic _)))
  run-IsAtomic (Command.review_signal_recovery_report id task_id accepted version task_version) =
      c.in_tx-Atomic _
  run-IsAtomic (Command.open_integrity_incident input) =
      drop-Atomic (bind-Atomic (get_now-Inert env) λ now. check-Atomic _ (c.in_tx-Atomic _))
  run-IsAtomic (Command.close_integrity_incident id) = c.in_tx-Atomic _
  run-IsAtomic (Command.mark_integrity_incident id) = c.in_tx-Atomic _
  run-IsAtomic (Command.register_array_operator name role) =
      drop-Atomic
        (bind-Atomic c.new_string-Inert λ id. check-Atomic _ (then-Atomic _ (c.in_tx-Atomic _)))
  run-IsAtomic (Command.rename_array_operator id name) = check-Atomic _ (c.in_tx-Atomic _)
  run-IsAtomic (Command.assign_acoustic_buoy assignment operator) =
      check-Atomic _ (c.in_tx-Atomic _)
  run-IsAtomic (Command.advance_assignment id next version) = c.in_tx-Atomic _
