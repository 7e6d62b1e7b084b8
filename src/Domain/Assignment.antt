-- ===== src/Domain/Assignment.antt =====
-- internal/domain/assignment.go and array_operator_rules.go: assignments of operators to buoys.
use ufo_observation_command.Base.{
  ℤ, ltb_ℤ, String, ◌==◌, Bool, false, not, ◌&&◌, ◌||◌, Option, none, some, List, [], ◌∷◌,
  if◌then◌else◌, Result, ok, ◌>>◌, refuse,
}
use ufo_observation_command.Domain.Errors.{conflict_error}
use ufo_observation_command.Domain.Operator
use ufo_observation_command.Domain.Operator.{ArrayOperator, has}

pub record Assignment : Type 0 where
  pub id : String
  pub survey_mission_id : String
  pub acoustic_buoy_id : String
  pub array_operator_id : String
  pub starts_at : ℤ
  pub ends_at : ℤ
  pub status : String

unfoldable pub validate : Assignment → Result (Unit {0})
validate a = do
  refuse
      (a.id == ""
        || a.survey_mission_id == ""
        || a.acoustic_buoy_id == ""
        || a.array_operator_id == "")
      (conflict_error "assignment ids are required: %w")
  refuse (not (ltb_ℤ a.starts_at a.ends_at)) (conflict_error "assignment window is invalid: %w")
  refuse
      (not (a.status == "queued")
        && not (a.status == "active")
        && not (a.status == "completed")
        && not (a.status == "cancelled"))
      (conflict_error "assignment status is invalid: %w")
  ok tt

unfoldable pub active_at : Assignment → ℤ → Bool
active_at a now = a.status == "active" && not (ltb_ℤ now a.starts_at) && ltb_ℤ now a.ends_at

-- The statuses from which a status may be reached; `none` is the `false` of the second result.
unfoldable pub assignment_sources_for : String → Option (List String)
assignment_sources_for next =
    if next == "active"
    then some ("queued" ∷ [])
    else if next == "completed"
    then some ("active" ∷ [])
    else if next == "cancelled"
    then some ("queued" ∷ "active" ∷ [])
    else none

unfoldable pub can_move_to : Assignment → String → Bool
can_move_to a next =
    if a.status == "queued"
    then next == "active" || next == "cancelled"
    else if a.status == "active"
    then next == "completed" || next == "cancelled"
    else false

unfoldable pub can_assign : ArrayOperator → Assignment → Result (Unit {0})
unfolding validate
can_assign o a = do
  Operator.validate o
  refuse (not (a.array_operator_id == o.id))
      (conflict_error "assignment array_operator mismatch: %w")
  refuse (not (o.role == Operator.buoy_operator) && not (o.role == Operator.safety_supervisor))
      (conflict_error "array operator cannot receive a buoy assignment: %w")
  validate a

unfoldable pub can_review : ArrayOperator → String → Result (Unit {0})
can_review o signal_recovery_report = do
  refuse (not (has o Operator.report_review))
      (conflict_error "array_operator cannot review signal_recovery_reports: %w")
  refuse (not (signal_recovery_report == "pending"))
      (conflict_error "signal_recovery_report is already reviewed: %w")
  ok tt
