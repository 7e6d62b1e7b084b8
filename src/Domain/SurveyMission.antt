-- ===== src/Domain/SurveyMission.antt =====
-- internal/domain/status.go and plan.go: survey missions, the moves of their status and the window
-- in which they run. A status is a Go string, so any text may stand where a status is expected.
use ufo_observation_command.Base.{
  ℤ, pos, ltb_ℤ, ◌==ℤ◌, sub_time, String, ◌==◌, Bool, false, not, ◌&&◌, ◌||◌, if◌then◌else◌, Result,
  ok, ◌>>◌, refuse,
}
use ufo_observation_command.Domain.Errors.{conflict_error, expired_error}

unfoldable pub can_move_to : String → String → Bool
can_move_to s next =
    if s == "draft"
    then next == "scheduled"
    else if s == "scheduled"
    then next == "active" || next == "closed"
    else if s == "active"
    then next == "closed"
    else false

pub record SurveyMission : Type 0 where
  pub id : String
  pub code : String
  pub name : String
  pub status : String
  pub timezone : String
  pub starts_at : ℤ
  pub ends_at : ℤ
  pub version : ℤ
  pub created_by : String

unfoldable pub validate_window : SurveyMission → ℤ → Result (Unit {0})
validate_window p now = do
  refuse (ltb_ℤ p.ends_at p.starts_at || p.ends_at ==ℤ p.starts_at)
      (conflict_error "survey_mission end must be after start: %w")
  refuse (p.timezone == "") (conflict_error "timezone is required: %w")
  refuse (ltb_ℤ p.ends_at now && not (p.status == "closed"))
      (expired_error "survey_mission window has elapsed: %w")
  ok tt

unfoldable pub survey_mission_execution_allowed : SurveyMission → ℤ → Bool
survey_mission_execution_allowed p now =
    if not (p.status == "active")
    then false
    else if ltb_ℤ now p.starts_at
    then false
    else ltb_ℤ now p.ends_at

unfoldable pub can_execute_at : SurveyMission → ℤ → Bool
can_execute_at p now = p.status == "active" && not (ltb_ℤ now p.starts_at) && ltb_ℤ now p.ends_at

unfoldable pub remaining_window : SurveyMission → ℤ → ℤ
remaining_window p now = if ltb_ℤ p.ends_at now then pos 0 else sub_time p.ends_at now
