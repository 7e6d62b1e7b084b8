-- ===== src/Service/Jobs.antt =====
-- internal/service/service.go, mooring.go and bulk.go: recovery jobs and their activations.
pub mod Audited
use ufo_observation_command.Base.{
  ℕ, suc, ◌==ℕ◌, ℤ, pos, ◌==ℤ◌, String, ◌==◌, not, List, [], ◌∷◌, length, if◌then◌else◌, any,
  Result, refuse, Method,
}
use ufo_observation_command.Base.Methods.{◌>>=◌, ◌>>◌, return, lift}
use ufo_observation_command.Domain.Errors.{conflict_error, transition_error}
use ufo_observation_command.Domain.SurveyMission.{can_execute_at}
use ufo_observation_command.Domain.RecoveryJob.{RecoveryJob, move}
use ufo_observation_command.Domain.Bulk
use ufo_observation_command.Domain.Bulk.{RecoveryJobRequest, validate_bulk_requests}
use ufo_observation_command.Domain.Validation.{
  Activation, validate_activation, validate_business_code,
}
use ufo_observation_command.Repository.Types.{Repository, RecoveryJobInput, ActivationInput}
use ufo_observation_command.Service.Environment.{Environment, RequestMeta, audit, get_now, get_wall}

unfoldable pub request_of : RecoveryJobInput → RecoveryJobRequest
request_of input = record {
  survey_mission_id = input.survey_mission_id;
  acoustic_buoy_id = input.acoustic_buoy_id;
  task_code = input.task_code;
  expires_at = input.expires_at;
}

unfoldable pub input_of : RecoveryJobRequest → RecoveryJobInput
input_of request = record {
  survey_mission_id = request.survey_mission_id;
  acoustic_buoy_id = request.acoustic_buoy_id;
  task_code = request.task_code;
  expires_at = request.expires_at;
}

-- `domain.BulkItemResult`.
pub record BulkItemResult : Type 0 where
  pub index : ℕ
  pub task_code : String
  pub recovery_job_id : String

-- The results of the jobs from an index on.
unfoldable pub bulk_results : ℕ → List RecoveryJob → List BulkItemResult
bulk_results i [] = []
bulk_results i (task ∷ tasks) =
    record { index = i; task_code = task.task_code; recovery_job_id = task.id }
    ∷ bulk_results (suc i) tasks

-- The loop of `ValidateBulkForAcousticBuoy`.
unfoldable pub for_acoustic_buoy : List RecoveryJobRequest → String → Result (Unit {0})
for_acoustic_buoy requests acoustic_buoy_id =
    refuse (any (λ request. not (request.acoustic_buoy_id == acoustic_buoy_id)) requests)
      (conflict_error "task acoustic_buoy differs from dive_window acoustic_buoy: %w")

module _ {W : Type 0} (repo : Repository W) (env : Environment W) (meta : RequestMeta) where
  unfoldable pub create_recovery_job : RecoveryJobInput → Method W RecoveryJob
  unfolding request_of Bulk.validate validate_business_code audit
  create_recovery_job input = do
    now ← get_now env
    lift (Bulk.validate (request_of input) now)
    lift (validate_business_code input.task_code)
    repo.in_tx do
      repo.validate_placement input.survey_mission_id input.acoustic_buoy_id
      task ← repo.create_recovery_job input
      repo.write_audit (audit meta "acoustic_buoy_task" task.id "create")
      return task

  -- The mission's check that only a completion makes.
  unfoldable pub check_mission : RecoveryJob → String → Method W (Unit {0})
  unfolding can_execute_at
  check_mission task next =
      if next == "completed"
      then (do
        mission ← repo.get_survey_mission task.survey_mission_id
        now ← get_now env
        lift (
            refuse (not (can_execute_at mission now))
              (transition_error "survey_mission is not active for task execution: %w")))
      else return tt

  unfoldable pub move_recovery_job : String → ℤ → String → String → Method W (Unit {0})
  unfolding check_mission move audit
  move_recovery_job id version next action = repo.in_tx do
    task ← repo.get_recovery_job id
    check_mission task next
    now ← get_now env
    updated ← lift (move task next now)
    later ← get_now env
    repo.move_recovery_job id updated.status version later
    repo.write_audit (audit meta "acoustic_buoy_task" id action)

  -- ActivationRecoveryJob and AcceptRecoveryJob differ in the status and the word of the trail.
  unfoldable pub record_move : ActivationInput → ℤ → String → String → Method W (Unit {0})
  unfolding audit
  record_move input version next action = repo.in_tx do
    repo.move_recovery_job input.recovery_job_id next version input.recorded_at
    repo.record_activation input
    repo.write_audit (audit meta "acoustic_buoy_task" input.recovery_job_id action)

  unfoldable pub activation_recovery_job : ActivationInput → ℤ → Method W (Unit {0})
  unfolding record_move
  activation_recovery_job input version =
      record_move input version "activation_pending" "activation"

  unfoldable pub accept_recovery_job : ActivationInput → ℤ → Method W (Unit {0})
  unfolding record_move
  accept_recovery_job input version = record_move input version "accepted" "accept"

  -- The time of an activation that has none is now.
  unfoldable pub stamped : ActivationInput → ℤ → ActivationInput
  stamped input now =
      if input.recorded_at ==ℤ pos 0 then record input { recorded_at = now } else input

  unfoldable pub activation_of : ActivationInput → Activation
  activation_of input = record {
    recovery_job_id = input.recovery_job_id;
    to_operator = input.to_operator;
    location = input.location;
    recorded_at = input.recorded_at;
  }

  unfoldable pub activation_checked : ActivationInput → ℤ → Method W (Unit {0})
  unfolding stamped activation_of validate_activation activation_recovery_job
  activation_checked input version = do
    now ← get_now env
    wall ← get_wall env
    lift (validate_activation (activation_of (stamped input now)) wall)
    activation_recovery_job (stamped input now) version

  unfoldable pub accept_checked : ActivationInput → ℤ → Method W (Unit {0})
  unfolding stamped activation_of validate_activation accept_recovery_job
  accept_checked input version = do
    now ← get_now env
    wall ← get_wall env
    lift (validate_activation (activation_of (stamped input now)) wall)
    accept_recovery_job (stamped input now) version

  -- The loop that writes the jobs of a bulk request.
  unfoldable pub create_jobs : List RecoveryJobRequest → Method W (List RecoveryJob)
  unfolding input_of
  create_jobs [] = return []
  create_jobs (request ∷ requests) = do
    repo.validate_placement request.survey_mission_id request.acoustic_buoy_id
    task ← repo.create_recovery_job (input_of request)
    tasks ← create_jobs requests
    return (task ∷ tasks)

  -- `requests[0].SurveyMissionID`.
  unfoldable pub first_mission : List RecoveryJobRequest → String
  first_mission [] = ""
  first_mission (request ∷ requests) = request.survey_mission_id

  unfoldable pub write_jobs : List RecoveryJobRequest → Method W (List RecoveryJob)
  unfolding create_jobs audit first_mission
  write_jobs requests = repo.in_tx do
    tasks ← create_jobs requests
    repo.write_audit (audit meta "task_dive_window" (first_mission requests) "create_bulk")
    return tasks

  unfoldable pub create_recovery_jobs_bulk :
      List RecoveryJobRequest → Method W (List BulkItemResult)
  unfolding validate_bulk_requests write_jobs bulk_results
  create_recovery_jobs_bulk requests = do
    now ← get_now env
    lift (refuse (length requests ==ℕ 0) (conflict_error "at least one task is required: %w"))
    lift (validate_bulk_requests requests now)
    tasks ← write_jobs requests
    return (bulk_results 0 tasks)

  unfoldable pub validate_bulk_for_acoustic_buoy :
      List RecoveryJobRequest → String → Method W (Unit {0})
  unfolding validate_bulk_requests for_acoustic_buoy
  validate_bulk_for_acoustic_buoy requests acoustic_buoy_id = do
    now ← get_now env
    lift (validate_bulk_requests requests now)
    lift (for_acoustic_buoy requests acoustic_buoy_id)
