-- ===== src/Repository/Tests.antt =====
-- The theorems about sequences of statements at concrete ones.
use ufo_observation_command.Base.{
  pos, ℕ, ◌+◌, ◌==ℕ◌, if◌then◌else◌, Option, some, Error, plain, Method, ok, ℤ, true, String,
  string_key, false, none, List, [], ◌∷◌, get, put, ◌≡◌, refl, arith,
}
use ufo_observation_command.Domain.RecoveryJob.{RecoveryJob}
use ufo_observation_command.Domain.Validation.{AcousticBuoy}
use ufo_observation_command.Repository.Tables.{Tables, update_row}
use ufo_observation_command.Repository.Jobs.{set_job, complete_job}
use ufo_observation_command.Repository.Driver.{Driver, World}
use ufo_observation_command.Repository.Expiry.{mark_expired_recovery_jobs}
use ufo_observation_command.Repository.Expiry.Marks.{Reconciled, mark_expired_recovery_jobs_lem}
use ufo_observation_command.Repository.Policy.{TransactionPolicy, run_with_policy}
use ufo_observation_command.Repository.Policy.Attempts.{PausedOutcome, run_with_policy_lem}
use ufo_observation_command.Base.Methods.{after, on_error}
use ufo_observation_command.Repository.Statement.{Statement, execute_all}
use ufo_observation_command.Repository.Statement.Slots.{Slots, execute_all-Slots}
use ufo_observation_command.Repository.Statement.Versions.{set_job_once}

abbrev buoy : AcousticBuoy
buoy = record {
  id = "b";
  survey_mission_id = "m";
  code = "BUOY1";
  arrayops_lane = "lane";
  required_successes = pos 1;
  completed = pos 0;
}

abbrev job : String → RecoveryJob
job id = record {
  id = id;
  survey_mission_id = "m";
  acoustic_buoy_id = "b";
  task_code = "TASK1";
  status = "queued";
  completed_at = none;
  accepted_at = none;
  expires_at = pos 90;
  version = pos 1;
}

abbrev tables : Tables
tables = record {
  missions = [];
  buoys = ("b", buoy) ∷ [];
  jobs = ("j", job "j") ∷ ("k", job "k") ∷ [];
  moorings = [];
  windows = [];
  items = [];
  reports = [];
  incidents = [];
  operators = [];
  assignments = [];
  audits = [];
}

-- Two completions of jobs of one buoy that requires one success, and a new buoy.
abbrev statements : List Statement
statements =
    Statement.complete_job "j" "completed" (pos 1) (pos 5)
    ∷ Statement.insert_buoy "c" record {
      survey_mission_id = "m";
      code = "BUOY2";
      arrayops_lane = "lane";
      required_successes = pos 3;
    }
    ∷ Statement.complete_job "k" "completed" (pos 1) (pos 6)
    ∷ []

execute_all-Slots_example : Slots (execute_all statements tables)
execute_all-Slots_example =
    execute_all-Slots statements tables (tt, (omega arith, (tt, tt))) (omega arith, tt)

abbrev moved : Tables
unfolding set_job
moved = (set_job "j" "accepted" (pos 1) (pos 5) tables).1

set_job_once_example :
    ((set_job "j" "archived" (pos 1) (pos 9) (execute_all statements moved)).0 ≡ false)
    × ((complete_job "j" "archived" (pos 1) (pos 9) (execute_all statements moved)).0 ≡ false)
unfolding moved set_job update_row get put
set_job_once_example =
    set_job_once "j" "accepted" "archived" (pos 1) (pos 5) (pos 9) statements tables refl

-- A server that takes every statement, at the time 0.
abbrev quiet : Driver (Unit {0})
quiet = record {
  answer = λ d. (none, d);
  applied = λ d. false;
  taken = plain "duplicate key";
  is_constraint = λ e. false;
  new_id = λ d. ("id", d);
  server_now = λ d. pos 0;
  is_json = λ s. true;
}

abbrev late : World (Unit {0})
late = record {
  tables = record tables {
    jobs = ("j", job "j") ∷ ("k", record (job "k") { expires_at = pos 200 }) ∷ [];
  };
  driver = tt;
}

-- At the time 100 the time of one of the two jobs is over.
mark_expired_recovery_jobs_lem_example :
    Reconciled
      (λ id. false)
      (pos 100)
      500
      late.tables
      (mark_expired_recovery_jobs quiet (λ id. false) (pos 100) (pos 500) late).1.tables
      (record { scanned = 1; marked = 1; failed = 0 })
unfolding mark_expired_recovery_jobs after on_error get put
mark_expired_recovery_jobs_lem_example =
    mark_expired_recovery_jobs_lem quiet (λ id. false) (pos 100) (pos 500)
      (record { scanned = 1; marked = 1; failed = 0 }) late
      (mark_expired_recovery_jobs quiet (λ id. false) (pos 100) (pos 500) late).1 (refl, (refl, tt))
      refl

-- A server that ends the first transaction with a conflict of serialization.
abbrev conflicted : Driver ℕ
conflicted = record {
  answer = λ d. (if d ==ℕ 1 then some (plain "serialization failure") else none, d + 1);
  applied = λ d. false;
  taken = plain "duplicate key";
  is_constraint = λ e. false;
  new_id = λ d. ("id", d);
  server_now = λ d. pos 0;
  is_json = λ s. true;
}

abbrev code_40001 : Error → Option String
code_40001 e = some "40001"

-- While the pause lasts, another transaction removes the missions.
abbrev others : ℤ → World ℕ → Option Error × World ℕ
others ms w = (none, record w { tables = record w.tables { missions = [] } })

abbrev twice : TransactionPolicy
twice = record { timeout = pos 9; serializable = true; retry_attempts = pos 2 }

abbrev forget_jobs : Method (World ℕ) (Unit {0})
forget_jobs w = (ok tt, record w { tables = record w.tables { jobs = [] } })

abbrev before : World ℕ
before = record { tables = tables; driver = 0 }

run_with_policy_lem_example :
    PausedOutcome conflicted code_40001 others twice forget_jobs before.tables
      (run_with_policy conflicted code_40001 others twice forget_jobs before)
run_with_policy_lem_example =
    run_with_policy_lem conflicted code_40001 others twice forget_jobs
      (λ text e d d' answer again. refl) before
