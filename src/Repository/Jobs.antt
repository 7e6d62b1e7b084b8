-- ===== src/Repository/Jobs.antt =====
-- internal/repository/postgres.go: the statements on recovery jobs and their activations.
use ufo_observation_command.Base.{
  ℤ, pos, ◌+ℤ◌, ◌==ℤ◌, ltb_ℤ, String, ◌==◌, Bool, true, false, not, ◌&&◌, Option, none, some, List,
  [], ◌∷◌, any, Dict, get, put, string_key, if◌then◌else◌, wrap, Method,
}
use ufo_observation_command.Base.Methods.{◌>>=◌, ◌>>◌, return, fail, map_error}
use ufo_observation_command.Domain.Errors.{transition_error}
use ufo_observation_command.Domain.RecoveryJob.{RecoveryJob}
use ufo_observation_command.Domain.Validation.{AcousticBuoy}
use ufo_observation_command.Repository.Types.{RecoveryJobInput, ActivationInput}
use ufo_observation_command.Repository.Tables.{Tables, insert_row, update_row}
use ufo_observation_command.Repository.Driver.{
  Driver, World, statement, select, insert, update, wrap_write, draw_id, server_time,
}
use ufo_observation_command.Repository.Missions.{found}

unfoldable pub new_job : String → RecoveryJobInput → RecoveryJob
new_job id input = record {
  id = id;
  survey_mission_id = input.survey_mission_id;
  acoustic_buoy_id = input.acoustic_buoy_id;
  task_code = input.task_code;
  status = "queued";
  completed_at = none;
  accepted_at = none;
  expires_at = input.expires_at;
  version = pos 1;
}

unfoldable pub insert_job : RecoveryJob → Tables → Bool × Tables
unfolding insert_row
insert_job s t =
    let rows : Bool × Dict String RecoveryJob = insert_row t.jobs s.id s in
    (rows.0, record t { jobs = rows.1 })

-- The statement of a move that is no completion.
unfoldable pub set_job : String → String → ℤ → ℤ → Tables → Bool × Tables
unfolding update_row
set_job id status version now t =
    let rows : Bool × Dict String RecoveryJob =
      update_row t.jobs id (λ s. s.version ==ℤ version)
        (λ s. record s {
          status = status;
          version = s.version +ℤ pos 1;
          completed_at = if status == "completed" then some now else s.completed_at;
          accepted_at = if status == "accepted" then some now else s.accepted_at;
        }) in
    (rows.0, record t { jobs = rows.1 })

-- The statement of a completion: the job and its buoy, when the buoy still needs a success.
unfoldable pub complete_job_at :
    String → String → ℤ → ℤ → RecoveryJob → Option AcousticBuoy → Tables → Bool × Tables
complete_job_at id status version now s none t = (false, t)
complete_job_at id status version now s (some b) t =
    if ltb_ℤ b.completed b.required_successes && s.version ==ℤ version
    then (
      true,
      record t {
        jobs =
            put t.jobs id
              (record s { status = status; version = s.version +ℤ pos 1; completed_at = some now });
        buoys = put t.buoys s.acoustic_buoy_id (record b { completed = b.completed +ℤ pos 1 });
      },
    )
    else (false, t)

unfoldable pub complete_job : String → String → ℤ → ℤ → Tables → Bool × Tables
unfolding complete_job_at
complete_job id status version now t = elim (get t.jobs id) [
  | none ↦ (false, t)
  | some s ↦ complete_job_at id status version now s (get t.buoys s.acoustic_buoy_id) t
]

unfoldable pub insert_mooring : String → ActivationInput → Tables → Bool × Tables
unfolding insert_row
insert_mooring id input t =
    let rows : Bool × Dict String ActivationInput = insert_row t.moorings id input in
    (rows.0, record t { moorings = rows.1 })

unfoldable pub insert_item : String → String → Tables → Bool × Tables
insert_item window_id task_id t =
    if any (λ item. item.0 == window_id && item.1 == task_id) t.items
    then (false, t)
    else (true, record t { items = (window_id, task_id) ∷ t.items })

-- An accepted job that has not expired at `now` is put in progress.
unfoldable pub start_job : String → ℤ → Tables → Bool × Tables
unfolding update_row
start_job id now t =
    let rows : Bool × Dict String RecoveryJob =
      update_row t.jobs id (λ s. s.status == "accepted" && not (ltb_ℤ s.expires_at now))
        (λ s. record s { status = "in_progress"; version = s.version +ℤ pos 1 }) in
    (rows.0, record t { jobs = rows.1 })

module _ {D : Type 0} (sql : Driver D) where
  unfoldable pub create_recovery_job : RecoveryJobInput → Method (World D) RecoveryJob
  unfolding draw_id insert insert_job new_job
  create_recovery_job input = do
    id ← draw_id sql
    insert sql (insert_job (new_job id input))
    return (new_job id input)

  unfoldable pub get_recovery_job : String → Method (World D) RecoveryJob
  unfolding select found
  get_recovery_job id = do
    row ← map_error (wrap "get task: %w") (select sql (λ t. get t.jobs id))
    found row

  unfoldable pub move_recovery_job : String → String → ℤ → ℤ → Method (World D) (Unit {0})
  unfolding update complete_job set_job
  move_recovery_job id status version now =
      if status == "completed"
      then update sql "complete task: %w" (complete_job id status version now)
      else update sql "move task: %w" (set_job id status version now)

  unfoldable pub record_activation : ActivationInput → Method (World D) (Unit {0})
  unfolding draw_id insert insert_mooring
  record_activation input = do id ← draw_id sql; insert sql (insert_mooring id input)

  -- The second statement of the loop of `attachRecoveryJobs`, at the server's time.
  unfoldable pub start_attached : String → Method (World D) (Unit {0})
  unfolding statement start_job wrap_write
  start_attached task_id = do
    now ← server_time sql
    affected ← map_error (wrap_write sql) (statement sql (start_job task_id now))
    if affected
        then return tt
        else fail (transition_error "task %s is not eligible for acoustic_buoy-round execution: %w")

  unfoldable pub attach_recovery_jobs : String → List String → Method (World D) (Unit {0})
  unfolding insert insert_item start_attached
  attach_recovery_jobs window_id [] = return tt
  attach_recovery_jobs window_id (task_id ∷ task_ids) = do
    insert sql (insert_item window_id task_id)
    start_attached task_id
    attach_recovery_jobs window_id task_ids
