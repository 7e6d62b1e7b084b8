-- ===== src/Domain/Operator.antt =====
-- internal/domain/array_operator.go and permissions.go: the roles of array operators and what each
-- role may do. A role is a Go string.
use ufo_observation_command.Base.{
  String, ◌==◌, trim_space, Bool, false, ◌||◌, List, [], ◌∷◌, any, if◌then◌else◌, Result, ok, err,
  ◌>>◌, refuse, succeeded,
}
use ufo_observation_command.Domain.Errors.{conflict_error}

abbrev pub buoy_operator : String
buoy_operator = "acoustic_buoy_operator"

abbrev pub installation_operator : String
installation_operator = "signal_recovery_report_array_operator"

abbrev pub quality_reviewer : String
quality_reviewer = "quality_reviewer"

abbrev pub safety_supervisor : String
safety_supervisor = "safety_supervisor"

pub record ArrayOperator : Type 0 where
  pub id : String
  pub name : String
  pub role : String

unfoldable pub validate : ArrayOperator → Result (Unit {0})
validate o = do
  refuse (trim_space o.id == "" || trim_space o.name == "")
      (conflict_error "array_operator identity is required: %w")
  if o.role == buoy_operator
        || o.role == installation_operator
        || o.role == quality_reviewer
        || o.role == safety_supervisor
      then ok tt
      else err (conflict_error "unknown array_operator role: %w")

unfoldable pub can_record_signal_recovery_report : ArrayOperator → Bool
unfolding validate
can_record_signal_recovery_report o =
    if succeeded (validate o)
    then o.role == installation_operator || o.role == safety_supervisor
    else false

unfoldable pub can : ArrayOperator → String → Bool
can o action =
    if action == "complete" || action == "activation"
    then o.role == buoy_operator || o.role == safety_supervisor
    else if action == "record_signal_recovery_report"
    then o.role == installation_operator || o.role == safety_supervisor
    else if action == "review_signal_recovery_report"
    then o.role == quality_reviewer || o.role == safety_supervisor
    else if action == "close_survey_mission" || action == "archive"
    then o.role == safety_supervisor
    else false

abbrev pub survey_mission_write : String
survey_mission_write = "survey_mission:write"

abbrev pub recovery_job_complete : String
recovery_job_complete = "recovery_job:complete"

abbrev pub report_record : String
report_record = "signal_recovery_report:record"

abbrev pub report_review : String
report_review = "signal_recovery_report:review"

abbrev pub integrity_incident_close : String
integrity_incident_close = "integrity_incident:close"

unfoldable pub permissions : ArrayOperator → List String
permissions o =
    if o.role == buoy_operator
    then recovery_job_complete ∷ []
    else if o.role == installation_operator
    then report_record ∷ []
    else if o.role == quality_reviewer
    then report_review ∷ []
    else if o.role == safety_supervisor
    then survey_mission_write ∷ recovery_job_complete ∷ report_record ∷ report_review
      ∷ integrity_incident_close ∷ []
    else []

unfoldable pub has : ArrayOperator → String → Bool
unfolding permissions
has o permission = any (λ item. item == permission) (permissions o)
