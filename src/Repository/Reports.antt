-- ===== src/Repository/Reports.antt =====
-- internal/repository/postgres.go, business_checks.go, intervention.go: the statements on reports,
-- on incidents and on the trail of audit events.
use ufo_observation_command.Base.{
  ℤ, pos, ◌+ℤ◌, ◌==ℤ◌, String, ◌==◌, Bool, true, not, ◌&&◌, ◌||◌, Option, none, some, ◌∷◌, Dict,
  get, string_key, if◌then◌else◌, wrap, refuse, Method,
}
use ufo_observation_command.Base.Methods.{◌>>=◌, ◌>>◌, return, lift, map_error}
use ufo_observation_command.Domain.Errors.{conflict_error}
use ufo_observation_command.Domain.Validation.{IntegrityIncident}
use ufo_observation_command.Repository.Types.{
  SignalRecoveryReportInput, IntegrityIncidentInput, AuditInput,
}
use ufo_observation_command.Repository.Tables.{Tables, ReportRow, insert_row, update_row}
use ufo_observation_command.Repository.Driver.{Driver, World, select, insert, update, draw_id}
use ufo_observation_command.Repository.Missions.{found}

unfoldable pub insert_report : String → SignalRecoveryReportInput → Tables → Bool × Tables
unfolding insert_row
insert_report id input t =
    let rows : Bool × Dict String ReportRow =
      insert_row t.reports id
        record { report = input; status = "pending"; reviewed_at = none; version = pos 1 } in
    (rows.0, record t { reports = rows.1 })

unfoldable pub review_report : String → Bool → ℤ → ℤ → Tables → Bool × Tables
unfolding update_row
review_report id accepted version now t =
    let rows : Bool × Dict String ReportRow =
      update_row t.reports id (λ r. r.status == "pending" && r.version ==ℤ version)
        (λ r. record r {
          status = if accepted then "verified" else "rejected";
          reviewed_at = some now;
          version = r.version +ℤ pos 1;
        }) in
    (rows.0, record t { reports = rows.1 })

unfoldable pub insert_incident : String → IntegrityIncidentInput → Tables → Bool × Tables
unfolding insert_row
insert_incident id input t =
    let rows : Bool × Dict String IntegrityIncident = insert_row t.incidents id record {
      id = id;
      recovery_job_id = input.recovery_job_id;
      kind = input.kind;
      status = "open";
      reason = input.reason;
      due_at = input.due_at;
      closed_at = none;
    } in
    (rows.0, record t { incidents = rows.1 })

unfoldable pub close_incident : String → ℤ → Tables → Bool × Tables
unfolding update_row
close_incident id now t =
    let rows : Bool × Dict String IntegrityIncident =
      update_row t.incidents id (λ d. d.status == "open" || d.status == "in_progress")
        (λ d. record d { status = "closed"; closed_at = some now }) in
    (rows.0, record t { incidents = rows.1 })

unfoldable pub mark_incident : String → Tables → Bool × Tables
unfolding update_row
mark_incident id t =
    let rows : Bool × Dict String IntegrityIncident =
      update_row t.incidents id (λ d. d.status == "open")
        (λ d. record d { status = "in_progress" }) in
    (rows.0, record t { incidents = rows.1 })

unfoldable pub insert_audit : AuditInput → Tables → Bool × Tables
insert_audit event t = (true, record t { audits = event ∷ t.audits })

unfoldable pub task_of : Option ReportRow → Option String
task_of none = none
task_of (some r) = some r.report.recovery_job_id

-- An event without a detail has an empty object as its detail.
unfoldable pub with_detail : AuditInput → AuditInput
with_detail event = if event.detail == "" then record event { detail = "{}" } else event

module _ {D : Type 0} (sql : Driver D) where
  unfoldable pub create_signal_recovery_report : SignalRecoveryReportInput → Method (World D) String
  unfolding draw_id insert insert_report
  create_signal_recovery_report input = do
    id ← draw_id sql
    insert sql (insert_report id input)
    return id

  unfoldable pub report_task_id : String → Method (World D) String
  unfolding select task_of found
  report_task_id id = do
    row ←
        map_error (wrap "get signal_recovery_report task: %w")
          (select sql (λ t. task_of (get t.reports id)))
    found row

  unfoldable pub review_report_record : String → Bool → ℤ → ℤ → Method (World D) (Unit {0})
  unfolding update review_report
  review_report_record id accepted version now =
      update sql "review signal_recovery_report: %w" (review_report id accepted version now)

  unfoldable pub create_integrity_incident : IntegrityIncidentInput → Method (World D) String
  unfolding draw_id insert insert_incident
  create_integrity_incident input = do
    id ← draw_id sql
    insert sql (insert_incident id input)
    return id

  unfoldable pub close_integrity_incident : String → ℤ → Method (World D) (Unit {0})
  unfolding update close_incident
  close_integrity_incident id now = update sql "close safety_alert: %w" (close_incident id now)

  unfoldable pub mark_integrity_incident : String → Method (World D) (Unit {0})
  unfolding update mark_incident
  mark_integrity_incident id = update sql "mark safety_alert in progress: %w" (mark_incident id)

  unfoldable pub write_audit : AuditInput → Method (World D) (Unit {0})
  unfolding draw_id with_detail insert insert_audit
  write_audit event = do
    lift (
        refuse (not (sql.is_json (with_detail event).detail))
          (conflict_error "invalid audit detail: %w"))
    id ← draw_id sql
    insert sql (insert_audit (with_detail event))
