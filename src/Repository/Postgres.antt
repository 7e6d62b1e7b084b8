-- ===== src/Repository/Postgres.antt =====
-- internal/repository/postgres.go: the statements, as an implementation of the interface.
use ufo_observation_command.Repository.Types.{Repository}
use ufo_observation_command.Repository.Driver.{Driver, World}
use ufo_observation_command.Repository.Driver
use ufo_observation_command.Repository.Missions
use ufo_observation_command.Repository.Jobs
use ufo_observation_command.Repository.Windows
use ufo_observation_command.Repository.Reports

abbrev pub postgres : {D : Type 0} → Driver D → Repository (World D)
postgres sql = record {
  in_tx = Driver.in_tx sql;
  create_survey_mission = Missions.create_survey_mission sql;
  get_survey_mission = Missions.get_survey_mission sql;
  advance_survey_mission = Missions.advance_survey_mission sql;
  create_acoustic_buoy = Missions.create_acoustic_buoy sql;
  validate_placement = Missions.validate_placement sql;
  create_recovery_job = Jobs.create_recovery_job sql;
  get_recovery_job = Jobs.get_recovery_job sql;
  move_recovery_job = Jobs.move_recovery_job sql;
  record_activation = Jobs.record_activation sql;
  create_dive_window = Windows.create_dive_window sql;
  attach_recovery_jobs = Jobs.attach_recovery_jobs sql;
  change_dive_window = Windows.change_dive_window sql;
  validate_report_target = Windows.validate_report_target sql;
  create_signal_recovery_report = Reports.create_signal_recovery_report sql;
  report_task_id = Reports.report_task_id sql;
  review_report_record = Reports.review_report_record sql;
  create_integrity_incident = Reports.create_integrity_incident sql;
  close_integrity_incident = Reports.close_integrity_incident sql;
  mark_integrity_incident = Reports.mark_integrity_incident sql;
  create_array_operator = Missions.create_array_operator sql;
  get_array_operator = Missions.get_array_operator sql;
  rename_array_operator = Missions.rename_array_operator sql;
  create_assignment = Missions.create_assignment sql;
  advance_assignment = Missions.advance_assignment sql;
  write_audit = Reports.write_audit sql;
}
