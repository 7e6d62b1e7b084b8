-- ===== src/Service/Jobs/Audited.antt =====
-- internal/service/service.go, mooring.go, bulk.go: the entries that the use cases of jobs leave in the trail.
use ufo_observation_command.Base.{ℤ, String, ◌==◌, List, [], ◌∷◌, Bool-cases, inl, inr}
use ufo_observation_command.Domain.RecoveryJob.{RecoveryJob}
use ufo_observation_command.Domain.Bulk.{RecoveryJobRequest}
use ufo_observation_command.Repository.Types.{Repository, RecoveryJobInput, ActivationInput}
use ufo_observation_command.Service.Jobs.{
  create_recovery_job, check_mission, move_recovery_job, record_move, activation_recovery_job,
  accept_recovery_job, activation_checked, accept_checked, create_jobs, write_jobs,
  create_recovery_jobs_bulk,
}
use ufo_observation_command.Service.Environment.{Environment, RequestMeta}
use ufo_observation_command.Service.Contract.{Contract, Adds, Quiet}
use ufo_observation_command.Service.Trail.{
  get_now-Quiet, get_wall-Quiet, return-Quiet, lift-Quiet, bind-Adds, bind-Quiet, audit-Adds,
}

module _ {W : Type 0} {repo : Repository W} {env : Environment W} (meta : RequestMeta)
    (c : Contract repo env) where
  pub create_recovery_job-Adds :
      (input : RecoveryJobInput)
      → Adds c.trail
          ((meta.request_id, "acoustic_buoy_task", "create") ∷ [])
          (create_recovery_job repo env meta input)
  unfolding create_recovery_job
  create_recovery_job-Adds input = bind-Adds (get_now-Quiet env) λ now.
      bind-Adds (lift-Quiet _) λ _. bind-Adds (lift-Quiet _) λ _. c.in_tx-Adds _ _ (
        bind-Adds (c.validate_placement-Quiet _ _) λ _.
          bind-Adds (c.create_recovery_job-Quiet input) λ task.
            bind-Quiet (audit-Adds meta c "acoustic_buoy_task" task.id "create")
              λ _. return-Quiet task)

  check_mission-Quiet :
      (task : RecoveryJob) (next : String) → Quiet c.trail (check_mission repo env meta task next)
  unfolding check_mission
  check_mission-Quiet task next = elim (Bool-cases (next == "completed")) [
    | inl e ↦ rw e (
        bind-Adds (c.get_survey_mission-Quiet _)
          λ mission. bind-Adds (get_now-Quiet env) λ now. lift-Quiet _)
    | inr e ↦ rw e (return-Quiet tt)
  ]

  pub move_recovery_job-Adds :
      (id : String) (version : ℤ) (next action : String)
      → Adds c.trail
          ((meta.request_id, "acoustic_buoy_task", action) ∷ [])
          (move_recovery_job repo env meta id version next action)
  unfolding move_recovery_job
  move_recovery_job-Adds id version next action = c.in_tx-Adds _ _ (
      bind-Adds (c.get_recovery_job-Quiet id) λ task. bind-Adds (check_mission-Quiet task next) λ _.
        bind-Adds (get_now-Quiet env) λ now. bind-Adds (lift-Quiet _) λ updated.
          bind-Adds (get_now-Quiet env) λ later.
            bind-Adds (c.move_recovery_job-Quiet id updated.status version later)
              λ _. audit-Adds meta c "acoustic_buoy_task" id action)

  record_move-Adds :
      (input : ActivationInput) (version : ℤ) (next action : String)
      → Adds c.trail
          ((meta.request_id, "acoustic_buoy_task", action) ∷ [])
          (record_move repo env meta input version next action)
  unfolding record_move
  record_move-Adds input version next action = c.in_tx-Adds _ _ (
      bind-Adds (c.move_recovery_job-Quiet _ next version _) λ _.
        bind-Adds (c.record_activation-Quiet input)
          λ _. audit-Adds meta c "acoustic_buoy_task" _ action)

  pub activation_recovery_job-Adds :
      (input : ActivationInput) (version : ℤ)
      → Adds c.trail
          ((meta.request_id, "acoustic_buoy_task", "activation") ∷ [])
          (activation_recovery_job repo env meta input version)
  unfolding activation_recovery_job
  activation_recovery_job-Adds input version = record_move-Adds input version _ _

  pub accept_recovery_job-Adds :
      (input : ActivationInput) (version : ℤ)
      → Adds c.trail
          ((meta.request_id, "acoustic_buoy_task", "accept") ∷ [])
          (accept_recovery_job repo env meta input version)
  unfolding accept_recovery_job
  accept_recovery_job-Adds input version = record_move-Adds input version _ _

  pub activation_checked-Adds :
      (input : ActivationInput) (version : ℤ)
      → Adds c.trail
          ((meta.request_id, "acoustic_buoy_task", "activation") ∷ [])
          (activation_checked repo env meta input version)
  unfolding activation_checked
  activation_checked-Adds input version = bind-Adds (get_now-Quiet env) λ now.
      bind-Adds (get_wall-Quiet env)
        λ wall. bind-Adds (lift-Quiet _) λ _. activation_recovery_job-Adds _ version

  pub accept_checked-Adds :
      (input : ActivationInput) (version : ℤ)
      → Adds c.trail
          ((meta.request_id, "acoustic_buoy_task", "accept") ∷ [])
          (accept_checked repo env meta input version)
  unfolding accept_checked
  accept_checked-Adds input version = bind-Adds (get_now-Quiet env) λ now.
      bind-Adds (get_wall-Quiet env)
        λ wall. bind-Adds (lift-Quiet _) λ _. accept_recovery_job-Adds _ version

  create_jobs-Quiet :
      (requests : List RecoveryJobRequest) → Quiet c.trail (create_jobs repo env meta requests)
  unfolding create_jobs
  create_jobs-Quiet [] = return-Quiet []
  create_jobs-Quiet (request ∷ requests) = bind-Adds (c.validate_placement-Quiet _ _) λ _.
      bind-Adds (c.create_recovery_job-Quiet _)
        λ task. bind-Adds (create_jobs-Quiet requests) λ tasks. return-Quiet (task ∷ tasks)

  pub create_recovery_jobs_bulk-Adds :
      (requests : List RecoveryJobRequest)
      → Adds c.trail
          ((meta.request_id, "task_dive_window", "create_bulk") ∷ [])
          (create_recovery_jobs_bulk repo env meta requests)
  unfolding create_recovery_jobs_bulk write_jobs
  create_recovery_jobs_bulk-Adds requests = bind-Adds (get_now-Quiet env) λ now.
      bind-Adds (lift-Quiet _) λ _. bind-Adds (lift-Quiet _) λ _.
        bind-Quiet
          (c.in_tx-Adds _ _ (
            bind-Adds (create_jobs-Quiet requests) λ tasks.
              bind-Quiet (audit-Adds meta c "task_dive_window" _ "create_bulk")
                λ _. return-Quiet tasks))
          λ tasks. return-Quiet _
