-- ===== src/Worker/Tests.antt =====
-- Runs of internal/worker at concrete inputs, and the theorems about it at such inputs.
use ufo_observation_command.Base.{
  ℕ, ◌+◌, pos, Option, Error, eq_iff, inc64, add64, int64, String, ◌≡◌, refl, true, none, some,
  List, [], ◌∷◌, length, arith, plain, if◌then◌else◌, ◌==ℕ◌,
}
use ufo_observation_command.Worker.Retry.{RetryPolicy, Environment, delay, run_with_retry}
use ufo_observation_command.Worker.Lease.{new_lease, acquire}
use ufo_observation_command.Worker.Metrics.{Metrics}
use ufo_observation_command.Worker.Processor.{DiveWindowJob, process}
use ufo_observation_command.Worker.Processor.Executions.{Processed, process_lem}
use ufo_observation_command.Worker.Outcome.{OutcomeRecord, OutcomeLog, list, append}
use ufo_observation_command.Worker.Outcome.Counts.{appends}

abbrev seconds : RetryPolicy
seconds = record { attempts = pos 3; base_delay = pos 1000; max_delay = pos 3000 }

-- The delays of internal/worker/retry_test.go, in milliseconds.
third_delay : delay seconds (pos 3) ≡ pos 3000
unfolding delay add64 int64
third_delay = refl

second_delay : delay seconds (pos 2) ≡ pos 2000
unfolding delay add64 int64
second_delay = refl

-- With an odd bound the last doubling is replaced by the bound.
odd_bound :
    delay (record { attempts = pos 3; base_delay = pos 1; max_delay = pos 3 }) (pos 2) ≡ pos 3
unfolding delay
odd_bound = refl

-- A world that counts the operations; the second one succeeds.
abbrev counting : Environment ℕ
counting = record {
  ctx_err = λ w. none;
  operation = λ w. (if w ==ℕ 1 then none else some (plain "temporary"), w + 1);
  wait = λ d w. (none, w);
}

second_succeeds : (run_with_retry counting seconds 0).0 ≡ none
unfolding run_with_retry inc64
second_succeeds = refl

acquired : (acquire "a" (pos 1) (pos 5) new_lease).0 ≡ true
unfolding acquire
acquired = refl

abbrev outcome_of : String → String → OutcomeRecord
outcome_of job outcome = record {
  job_id = job;
  outcome = outcome;
  attempts = pos 1;
  error = "";
  at = pos 7;
}

abbrev empty_log : OutcomeLog
empty_log = record { records = [] }

abbrev two_jobs : List OutcomeRecord
two_jobs = outcome_of "j1" "retry" ∷ outcome_of "j1" "success" ∷ []

two_listed : length (list (appends empty_log two_jobs)) ≡ 2
unfolding appends append list
two_listed = refl

abbrev dive_job : DiveWindowJob
dive_job = record { id = "w"; attempts = pos 0; max_attempts = pos 2 }

-- A world that counts the executions; the second one succeeds.
abbrev execute_second : DiveWindowJob → ℕ → Option Error × ℕ
execute_second job w = (if w ==ℕ 1 then none else some (plain "temporary"), w + 1)

abbrev no_metrics : Metrics
no_metrics = record { runs = pos 0; failures = pos 0; due = pos 0 }

process_lem_example :
    Processed
      (λ w. none)
      (λ d w. (none, w))
      execute_second
      (λ w. w)
      (λ job w. refl)
      (λ d w. refl)
      seconds
      dive_job
      0
      no_metrics
      (process (λ w. none) (λ d w. (none, w)) (some execute_second) seconds dive_job 0 no_metrics)
process_lem_example =
    process_lem (λ w. none) (λ d w. (none, w)) execute_second (λ w. w) (λ job w. refl) (λ d w. refl)
      seconds dive_job 0 no_metrics (ground (arith, eq_iff "w" ""))
