-- ===== src/Worker/Processor/Executions.antt =====
-- internal/worker/dive_window_processor.go: how often a job is executed.
use ufo_observation_command.Base.{
  ℕ, ◌+◌, ◌≤◌, ℤ, pos, pos_part, ◌<ℤ◌, add64, ◌==◌, false, Option, none, some, if◌then◌else◌, ◌≡◌,
  ◌≢◌, eq_iff, is_some, refl, Error, arith,
}
use ufo_observation_command.Worker.Metrics.{Metrics, record_run, record_failure}
use ufo_observation_command.Worker.Retry.{RetryPolicy, run_with_retry}
use ufo_observation_command.Worker.Retry.Attempts.{retry_bounded, retry_sound}
use ufo_observation_command.Worker.Processor.{
  DiveWindowJob, bounded_policy, job_environment, after_run, process,
}

module _ {W : Type 0} (ctx_err : W → Option Error) (wait : ℤ → W → Option Error × W)
    (execute : DiveWindowJob → W → Option Error × W) (executions : W → ℕ)
    (execute_counts : (job : DiveWindowJob) (w : W)
      → executions (execute job w).1 ≡ executions w + 1)
    (wait_counts : (d : ℤ) (w : W) → executions (wait d w).1 ≡ executions w) where
  bounded_policy-le :
      (policy : RetryPolicy) (job : DiveWindowJob)
      → (pos_part (bounded_policy policy job).attempts ≤ pos_part policy.attempts)
        × (pos 0 <ℤ job.max_attempts
            → pos_part (bounded_policy policy job).attempts ≤ pos_part job.max_attempts)
  unfolding bounded_policy
  bounded_policy-le policy job = (ground arith, λ h. ground arith)

  -- The run of a job, and what was executed after it.
  abbrev executed : RetryPolicy → DiveWindowJob → W → ℕ
  executed policy job w =
      executions
        (run_with_retry (job_environment ctx_err wait execute) (bounded_policy policy job)
          (job, w)).1.1

  executed-le :
      (policy : RetryPolicy) (job : DiveWindowJob) (w : W)
      → executed policy job w ≤ executions w + pos_part (bounded_policy policy job).attempts
  executed-le policy job w =
      retry_bounded (job_environment ctx_err wait execute) (bounded_policy policy job)
        (λ s. executions s.1)
        (λ s. execute_counts (record s.0 { attempts = add64 s.0.attempts (pos 1) }) s.1)
        (λ d s. wait_counts d s.1) (job, w)

  -- The bounds on the executions, the last of them where there is no error, and the counters.
  pub record Processed (policy : RetryPolicy) (job : DiveWindowJob) (w : W) (m : Metrics)
      (r : Option Error × (DiveWindowJob × W) × Metrics) : Type 0 where
    pub within_policy : executions r.1.1 ≤ executions w + pos_part policy.attempts
    pub within_job :
        pos 0 <ℤ job.max_attempts → executions r.1.1 ≤ executions w + pos_part job.max_attempts
    pub last_nil : r.0 ≡ none → (job' : DiveWindowJob) × (u : W) × (execute job' u ≡ (none, r.1.1))
    pub counted : r.2 ≡ (if is_some r.0 then record_failure (record_run m) else record_run m)

  after_run-Processed :
      (policy : RetryPolicy) (job : DiveWindowJob) (w : W) (m : Metrics)
      (x : Option Error × (DiveWindowJob × W))
      → executions x.1.1 ≤ executions w + pos_part (bounded_policy policy job).attempts
      → (x.0 ≡ none → (job' : DiveWindowJob) × (u : W) × (execute job' u ≡ (none, x.1.1)))
      → Processed policy job w m (after_run x m)
  after_run-Processed policy job w m (none, s) le well =
      let low = bounded_policy-le policy job in
      record {
        within_policy = omega (arith, low.0);
        within_job = λ h. omega (arith, low.1 h);
        last_nil = well;
        counted = refl;
      }
  after_run-Processed policy job w m (some e, s) le well =
      let low = bounded_policy-le policy job in
      record {
        within_policy = omega (arith, low.0);
        within_job = λ h. omega (arith, low.1 h);
        last_nil = λ h. absurd cc;
        counted = refl;
      }

  -- Process executes a job at most as often as its policy allows, and at most as often as the job
  -- does, where that sets a bound; it returns nil only when the last execution has, and counts one
  -- run for a job with an identifier, and a failure when it returns an error.
  pub process_lem :
      (policy : RetryPolicy) (job : DiveWindowJob) (w : W) (m : Metrics)
      → job.id ≢ ""
      → Processed policy job w m (process ctx_err wait (some execute) policy job w m)
  unfolding process
  process_lem policy job w m named =
      let env = job_environment ctx_err wait execute in
      let bounded = bounded_policy policy job in
      let has_id : (job.id == "") ≡ false = ground (arith, eq_iff job.id "") in
      rw has_id (
        after_run-Processed policy job w m (run_with_retry env bounded (job, w))
          (executed-le policy job w)
          (λ h.
            let (before, last) = retry_sound env bounded (job, w) h in
            (
              record before.0 { attempts = add64 before.0.attempts (pos 1) },
              before.1,
              (λ i. ((last i).0, (last i).1.1)),
            )))
