-- ===== src/Service/Reports/Audited.antt =====
-- internal/service/service.go and intervention.go: the entries of reports and incidents in the trail.
use ufo_observation_command.Base.{ℤ, String, Bool, true, false, List, [], ◌∷◌, if◌then◌else◌}
use ufo_observation_command.Base.Methods.{return}
use ufo_observation_command.Repository.Types.{
  Repository, SignalRecoveryReportInput, IntegrityIncidentInput,
}
use ufo_observation_command.Service.Contract.{Entry}
use ufo_observation_command.Service.Reports.{
  submit_signal_recovery_report, write_report, open_reassessment, review_signal_recovery_report,
  open_integrity_incident, write_incident, close_integrity_incident, mark_integrity_incident,
}
use ufo_observation_command.Service.Environment.{Environment, RequestMeta}
use ufo_observation_command.Service.Contract.{Contract, Adds}
use ufo_observation_command.Service.Trail.{
  get_now-Quiet, return-Quiet, lift-Quiet, bind-Adds, bind-Quiet, bind-both, audit-Adds,
}

module _ {W : Type 0} {repo : Repository W} {env : Environment W} (meta : RequestMeta)
    (c : Contract repo env) where
  pub submit_signal_recovery_report-Adds :
      (input : SignalRecoveryReportInput)
      → Adds c.trail
          ((meta.request_id, "signal_recovery_report", "record") ∷ [])
          (submit_signal_recovery_report repo env meta input)
  unfolding submit_signal_recovery_report write_report
  submit_signal_recovery_report-Adds input = bind-Adds (lift-Quiet _) λ _.
      bind-Adds (lift-Quiet _) λ _. c.in_tx-Adds _ _ (
        bind-Adds (c.validate_report_target-Quiet _ _) λ _.
          bind-Adds (c.get_array_operator-Quiet _) λ recorder. bind-Adds (lift-Quiet _) λ _.
            bind-Adds (c.create_signal_recovery_report-Quiet input) λ id.
              bind-Quiet (audit-Adds meta c "signal_recovery_report" id "record")
                λ _. return-Quiet id)

  open_reassessment-Adds :
      (task_id : String)
      → Adds c.trail
          ((meta.request_id, "safety_alert", "open") ∷ [])
          (open_reassessment repo env meta task_id)
  unfolding open_reassessment
  open_reassessment-Adds task_id = bind-Adds (get_now-Quiet env) λ now.
      bind-Adds (c.create_integrity_incident-Quiet _)
        λ id. audit-Adds meta c "safety_alert" id "open"

  -- What a review leaves before its own entry.
  abbrev reassessment : Bool → List Entry
  reassessment true = []
  reassessment false = (meta.request_id, "safety_alert", "open") ∷ []

  decision-Adds :
      (task_id : String) (accepted : Bool)
      → Adds c.trail
          (reassessment accepted)
          (if accepted then return tt else open_reassessment repo env meta task_id)
  decision-Adds task_id true = return-Quiet tt
  decision-Adds task_id false = open_reassessment-Adds task_id

  pub review_signal_recovery_report-Adds :
      (id task_id : String) (accepted : Bool) (version task_version : ℤ)
      → Adds c.trail
          ((meta.request_id, "signal_recovery_report", "review") ∷ reassessment accepted)
          (review_signal_recovery_report repo env meta id task_id accepted version task_version)
  unfolding review_signal_recovery_report
  review_signal_recovery_report-Adds id task_id accepted version task_version = c.in_tx-Adds _ _ (
      bind-Adds (c.report_task_id-Quiet id) λ actual. bind-Adds (lift-Quiet _) λ _.
        bind-Adds (get_now-Quiet env) λ now.
          bind-Adds (c.review_report_record-Quiet id accepted version now) λ _.
            bind-Adds (get_now-Quiet env) λ later.
              bind-Adds (c.move_recovery_job-Quiet task_id _ task_version later) λ _.
                bind-both (decision-Adds task_id accepted)
                  λ _. audit-Adds meta c "signal_recovery_report" id "review")

  pub open_integrity_incident-Adds :
      (input : IntegrityIncidentInput)
      → Adds c.trail
          ((meta.request_id, "safety_alert", "open") ∷ [])
          (open_integrity_incident repo env meta input)
  unfolding open_integrity_incident write_incident
  open_integrity_incident-Adds input = bind-Adds (get_now-Quiet env) λ now.
      bind-Adds (lift-Quiet _) λ _. c.in_tx-Adds _ _ (
        bind-Adds (c.create_integrity_incident-Quiet _)
          λ id. bind-Quiet (audit-Adds meta c "safety_alert" id "open") λ _. return-Quiet id)

  pub close_integrity_incident-Adds :
      (id : String)
      → Adds c.trail
          ((meta.request_id, "safety_alert", "close") ∷ [])
          (close_integrity_incident repo env meta id)
  unfolding close_integrity_incident
  close_integrity_incident-Adds id = c.in_tx-Adds _ _ (
      bind-Adds (get_now-Quiet env) λ now.
        bind-Adds (c.close_integrity_incident-Quiet id now)
          λ _. audit-Adds meta c "safety_alert" id "close")

  pub mark_integrity_incident-Adds :
      (id : String)
      → Adds c.trail
          ((meta.request_id, "safety_alert", "start") ∷ [])
          (mark_integrity_incident repo env meta id)
  unfolding mark_integrity_incident
  mark_integrity_incident-Adds id = c.in_tx-Adds _ _ (
      bind-Adds (c.mark_integrity_incident-Quiet id)
        λ _. audit-Adds meta c "safety_alert" id "start")
