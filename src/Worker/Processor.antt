-- ===== src/Worker/Processor.antt =====
-- internal/worker/dive_window_processor.go: a job of a dive window, tried again on failure.
pub mod Executions
use ufo_observation_command.Base.{
  ℤ, pos, ltb_ℤ, add64, String, ◌==◌, Bool, true, false, ◌&&◌, Option, none, some, if◌then◌else◌,
  Error, plain,
}
use ufo_observation_command.Worker.Metrics.{Metrics, record_run, record_failure}
use ufo_observation_command.Worker.Retry.{RetryPolicy, Environment, run_with_retry}

pub record DiveWindowJob : Type 0 where
  pub id : String
  pub attempts : ℤ
  pub max_attempts : ℤ

-- The bound of the job is kept when it is lower than that of the policy.
unfoldable pub bounded_policy : RetryPolicy → DiveWindowJob → RetryPolicy
bounded_policy policy job =
    if ltb_ℤ (pos 0) job.max_attempts && ltb_ℤ job.max_attempts policy.attempts
    then record policy { attempts = job.max_attempts }
    else policy

module _ {W : Type 0} (ctx_err : W → Option Error) (wait : ℤ → W → Option Error × W)
    (execute : DiveWindowJob → W → Option Error × W) where
  -- The closure: it counts an attempt of the job and executes it.
  abbrev pub operation : DiveWindowJob × W → Option Error × (DiveWindowJob × W)
  operation (job, w) =
      let counted : DiveWindowJob = record job { attempts = add64 job.attempts (pos 1) } in
      let (result, w') = execute counted w in (result, (counted, w'))

  abbrev pub job_environment : Environment (DiveWindowJob × W)
  job_environment = record {
    ctx_err = λ (job, w). ctx_err w;
    operation = operation;
    wait = λ d (job, w). let (stopped, w') = wait d w in (stopped, (job, w'));
  }

abbrev pub after_run : {S : Type 0} → Option Error × S → Metrics → Option Error × S × Metrics
after_run (none, s) m = (none, s, record_run m)
after_run (some e, s) m = (some e, s, record_failure (record_run m))

module _ {W : Type 0} (ctx_err : W → Option Error) (wait : ℤ → W → Option Error × W) where
  -- A nil executor is `none`. What comes back with the error is the job with its attempts, as the
  -- log has it, the world and the metrics.
  unfoldable pub process :
      Option (DiveWindowJob → W → Option Error × W)
      → RetryPolicy
      → DiveWindowJob
      → W
      → Metrics
      → Option Error × (DiveWindowJob × W) × Metrics
  unfolding bounded_policy record_run record_failure
  process none policy job w m =
      if job.id == ""
      then (some (plain "dive_window job id is required"), (job, w), m)
      else (some (plain "dive_window executor is nil"), (job, w), m)
  process (some execute) policy job w m =
      if job.id == ""
      then (some (plain "dive_window job id is required"), (job, w), m)
      else after_run
          (run_with_retry (job_environment ctx_err wait execute) (bounded_policy policy job)
            (job, w))
          m
