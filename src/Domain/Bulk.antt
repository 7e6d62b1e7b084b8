-- ===== src/Domain/Bulk.antt =====
-- internal/domain/bulk.go: requests for recovery jobs that come in bulk.
pub mod Requests
use ufo_observation_command.Base.{
  ℤ, ltb_ℤ, String, ◌==◌, trim_space, Bool, ◌||◌, List, [], ◌∷◌, any, if◌then◌else◌, Result, ok,
  err, ◌>>◌, ◌>>=◌, refuse,
}
use ufo_observation_command.Domain.Errors.{conflict_error, expired_sentinel}

pub record RecoveryJobRequest : Type 0 where
  pub survey_mission_id : String
  pub acoustic_buoy_id : String
  pub task_code : String
  pub expires_at : ℤ

unfoldable pub validate : RecoveryJobRequest → ℤ → Result (Unit {0})
validate r now = do
  refuse
      (trim_space r.survey_mission_id == ""
        || trim_space r.acoustic_buoy_id == ""
        || trim_space r.task_code == "")
      (conflict_error "task survey_mission, acoustic_buoy and code are required: %w")
  refuse (ltb_ℤ r.expires_at now) expired_sentinel
  ok tt

-- The loop, over the codes that were seen.
unfoldable pub check_requests : List String → List RecoveryJobRequest → ℤ → Result (Unit {0})
unfolding validate
check_requests seen [] now = ok tt
check_requests seen (request ∷ rest) now =
    let more : Result (Unit {0}) = check_requests (request.task_code ∷ seen) rest now in
    validate request now
    >> (if any (λ code. code == request.task_code) seen
        then err (conflict_error "duplicate external code %s: %w")
        else more)

unfoldable pub validate_bulk_requests : List RecoveryJobRequest → ℤ → Result (Unit {0})
unfolding check_requests
validate_bulk_requests requests now = check_requests [] requests now
