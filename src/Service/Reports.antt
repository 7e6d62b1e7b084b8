-- ===== src/Service/Reports.antt =====
-- internal/service/service.go and intervention.go: signal recovery reports and integrity incidents.
pub mod Audited
use ufo_observation_command.Base.{
  ℤ, pos, ◌+ℤ◌, ◌==ℤ◌, String, ◌==◌, Bool, not, ◌||◌, none, if◌then◌else◌, refuse, Method,
}
use ufo_observation_command.Base.Methods.{◌>>=◌, ◌>>◌, return, lift}
use ufo_observation_command.Domain.Errors.{conflict_error}
use ufo_observation_command.Domain.Operator.{can_record_signal_recovery_report}
use ufo_observation_command.Domain.Validation.{
  validate_signal_recovery_report, IntegrityIncident, validate_incident,
}
use ufo_observation_command.Repository.Types.{
  Repository, SignalRecoveryReportInput, IntegrityIncidentInput,
}
use ufo_observation_command.Service.Environment.{Environment, RequestMeta, audit, get_now}

-- `72 * time.Hour`.
abbrev pub response_time : ℤ
response_time = pos 259200000000000

module _ {W : Type 0} (repo : Repository W) (env : Environment W) (meta : RequestMeta) where
  unfoldable pub write_report : SignalRecoveryReportInput → Method W String
  unfolding can_record_signal_recovery_report audit
  write_report input = repo.in_tx do
    repo.validate_report_target input.recovery_job_id input.dive_window_id
    recorder ← repo.get_array_operator input.recorder_id
    lift (
        refuse (not (can_record_signal_recovery_report recorder))
          (conflict_error "array_operator role %s cannot record signal_recovery_reports: %w"))
    id ← repo.create_signal_recovery_report input
    repo.write_audit (audit meta "signal_recovery_report" id "record")
    return id

  unfoldable pub submit_signal_recovery_report : SignalRecoveryReportInput → Method W String
  unfolding validate_signal_recovery_report write_report
  submit_signal_recovery_report input = do
    lift (
        refuse
          (input.recovery_job_id == ""
            || input.dive_window_id == ""
            || input.recorder_id == ""
            || input.observed_at ==ℤ pos 0)
          (conflict_error "signal_recovery_report identifiers and observed_at are required: %w"))
    lift (validate_signal_recovery_report input.risk_score input.alert_threshold input.scale)
    write_report input

  -- What a rejection adds: an incident that asks for a new assessment, and its entry in the trail.
  unfoldable pub open_reassessment : String → Method W (Unit {0})
  unfolding audit
  open_reassessment task_id = do
    now ← get_now env
    incident_id ← repo.create_integrity_incident record {
      recovery_job_id = task_id;
      kind = "reassess";
      reason = "risk score exceeded the alert threshold";
      due_at = now +ℤ response_time;
    }
    repo.write_audit (audit meta "safety_alert" incident_id "open")

  unfoldable pub review_signal_recovery_report :
      String → String → Bool → ℤ → ℤ → Method W (Unit {0})
  unfolding open_reassessment audit
  review_signal_recovery_report report_id task_id accepted report_version task_version =
      repo.in_tx do
        actual ← repo.report_task_id report_id
        lift (
            refuse (not (actual == task_id))
              (conflict_error "signal_recovery_report and task do not match: %w"))
        now ← get_now env
        repo.review_report_record report_id accepted report_version now
        later ← get_now env
        repo.move_recovery_job task_id (if accepted then "verified" else "rejected") task_version
            later
        if accepted then return tt else open_reassessment task_id
        repo.write_audit (audit meta "signal_recovery_report" report_id "review")

  unfoldable pub write_incident : IntegrityIncidentInput → Method W String
  unfolding audit
  write_incident input = repo.in_tx do
    id ← repo.create_integrity_incident input
    repo.write_audit (audit meta "safety_alert" id "open")
    return id

  -- An incident that has no due time is due three days from now.
  unfoldable pub with_due_time : IntegrityIncidentInput → ℤ → IntegrityIncidentInput
  with_due_time input now =
      if input.due_at ==ℤ pos 0 then record input { due_at = now +ℤ response_time } else input

  unfoldable pub incident_of : IntegrityIncidentInput → IntegrityIncident
  incident_of input = record {
    id = "";
    recovery_job_id = input.recovery_job_id;
    kind = input.kind;
    status = "open";
    reason = input.reason;
    due_at = input.due_at;
    closed_at = none;
  }

  unfoldable pub open_integrity_incident : IntegrityIncidentInput → Method W String
  unfolding with_due_time incident_of validate_incident write_incident
  open_integrity_incident input = do
    now ← get_now env
    lift (validate_incident (incident_of (with_due_time input now)) now)
    write_incident (with_due_time input now)

  unfoldable pub close_integrity_incident : String → Method W (Unit {0})
  unfolding audit
  close_integrity_incident id = repo.in_tx do
    now ← get_now env
    repo.close_integrity_incident id now
    repo.write_audit (audit meta "safety_alert" id "close")

  unfoldable pub mark_integrity_incident : String → Method W (Unit {0})
  unfolding audit
  mark_integrity_incident id =
      repo.in_tx
        do repo.mark_integrity_incident id; repo.write_audit (audit meta "safety_alert" id "start")
