-- ===== src/Domain/RecoveryJob.antt =====
-- internal/domain/status.go and recovery_job_rules.go: recovery jobs and the moves of their status.
pub mod Moves
use ufo_observation_command.Base.{
  ℤ, ltb_ℤ, leb_ℤ, sub_time, inc64, String, ◌==◌, Bool, true, false, not, ◌&&◌, ◌||◌, Option, none,
  some, List, [], ◌∷◌, length, any, if◌then◌else◌, Result, ok, err, ◌>>◌, ◌>>=◌, refuse, pos,
}
use ufo_observation_command.Domain.Errors.{
  conflict_error, transition_error, expired_error, expired_sentinel,
}

unfoldable pub can_move_to : String → String → Bool
can_move_to s next =
    if s == "queued"
    then next == "completed"
    else if s == "completed"
    then next == "activation_pending"
    else if s == "activation_pending"
    then next == "accepted"
    else if s == "accepted"
    then next == "in_progress"
    else if s == "in_progress"
    then next == "verified" || next == "rejected"
    else if s == "rejected"
    then next == "archived"
    else if s == "verified"
    then next == "archived"
    else false

pub record RecoveryJob : Type 0 where
  pub id : String
  pub survey_mission_id : String
  pub acoustic_buoy_id : String
  pub task_code : String
  pub status : String
  pub completed_at : Option ℤ
  pub accepted_at : Option ℤ
  pub expires_at : ℤ
  pub version : ℤ

unfoldable pub eligible_for_execution : String → ℤ → ℤ → Bool
eligible_for_execution status expires_at now =
    if not (status == "accepted") then false else if ltb_ℤ expires_at now then false else true

unfoldable pub move : RecoveryJob → String → ℤ → Result RecoveryJob
move s next now = do
  refuse (not (can_move_to s.status next)) (transition_error "%s -> %s: %w")
  refuse (ltb_ℤ s.expires_at now && not (next == "archived")) (expired_error "task %s expired: %w")
  ok (record s {
    status = next;
    version = inc64 s.version;
    completed_at = if next == "completed" then some now else s.completed_at;
    accepted_at = if next == "accepted" then some now else s.accepted_at;
  })

unfoldable pub can_be_performed : RecoveryJob → ℤ → Result (Unit {0})
can_be_performed s now = do
  refuse (not (s.status == "accepted")) (transition_error "task is not accepted: %w")
  refuse (ltb_ℤ s.expires_at now) expired_sentinel
  ok tt

unfoldable pub can_be_archived : RecoveryJob → Bool
can_be_archived s = s.status == "verified" || s.status == "rejected"

-- internal/domain/constraints.go
pub record ConstraintSet : Type 0 where
  pub max_recovery_jobs_per_dive_window : ℤ
  pub minimum_remaining_ttl : ℤ
  pub require_activation_chain : Bool

unfoldable pub validate_constraints : ConstraintSet → Result (Unit {0})
validate_constraints c = do
  refuse (ltb_ℤ c.max_recovery_jobs_per_dive_window (pos 1))
      (conflict_error "max recovery_jobs per dive_window must be positive: %w")
  refuse (ltb_ℤ c.minimum_remaining_ttl (pos 0))
      (conflict_error "minimum ttl cannot be negative: %w")
  ok tt

unfoldable pub allows_recovery_job : ConstraintSet → RecoveryJob → ℤ → Bool
allows_recovery_job c task now =
    if not (task.status == "accepted")
    then false
    else leb_ℤ c.minimum_remaining_ttl (sub_time task.expires_at now)

unfoldable pub same_survey_mission : List RecoveryJob → Bool
same_survey_mission [] = true
same_survey_mission (first ∷ rest) =
    not (any (λ task. not (task.survey_mission_id == first.survey_mission_id)) rest)
