-- ===== src/Service/Tests.antt =====
-- A script of a driver's answers, tables to run on, and the theorems at concrete calls.
use ufo_observation_command.Base.{
  ◌⊎◌, ℕ, ℤ, pos, ◌==ℤ◌, ltb_ℤ, String, ◌==◌, string_key, Bool, true, false, Option, none, some,
  List, [], ◌∷◌, ◌++◌, get, put, ◌≡◌, refl, Error, plain, Result, ok, wrap,
}
use ufo_observation_command.Domain.SurveyMission.{SurveyMission, can_execute_at}
use ufo_observation_command.Domain.RecoveryJob.{RecoveryJob, can_move_to}
use ufo_observation_command.Domain.Validation.{AcousticBuoy}
use ufo_observation_command.Repository.Tables.{Tables}
use ufo_observation_command.Base.Methods.{after, on_error}
use ufo_observation_command.Repository.Driver
use ufo_observation_command.Repository.Missions
use ufo_observation_command.Repository.Jobs
use ufo_observation_command.Repository.Reports
use ufo_observation_command.Repository.Driver.{Driver, World}
use ufo_observation_command.Repository.Postgres.{postgres}
use ufo_observation_command.Service.Environment.{RequestMeta}
use ufo_observation_command.Service.Jobs as Cases
use ufo_observation_command.Base.{◌==ℕ◌, if◌then◌else◌, subst, ap, ok-injective, Method}
use ufo_observation_command.Base.Methods.{return}
use ufo_observation_command.Service.Idempotency.{replay_or}
use ufo_observation_command.Service.Idempotency.Replay.{replay_or_again}
use ufo_observation_command.Service.Idempotency.Create.{idempotent_create, idempotent_create_again}
use ufo_observation_command.Service.Idempotency.Keys.{
  KeyWorld, key_store, key_store_holding, get_idempotency, put_idempotency,
}
use ufo_observation_command.Service.Command.{Command, run, entries}
use ufo_observation_command.Service.Postgres.{environment, trail_of, AppliedCommit}
use ufo_observation_command.Service.Postgres.Completion.{
  complete_recovery_job_lem, completed_row, counted_row,
}
use ufo_observation_command.Service.Postgres.History.{
  run_atomic, run_all, logged, logged_of, run_all-logged,
}

-- The faults of the statements to come and the number of identifiers that were drawn.
pub record Script : Type 0 where
  pub faults : List (Option Error)
  pub drawn : ℕ

abbrev next_fault : List (Option Error) → ℕ → Option Error × Script
next_fault [] n = (none, record { faults = []; drawn = n })
next_fault (f ∷ fs) n = (f, record { faults = fs; drawn = n })

abbrev scripted : Driver Script
scripted = record {
  answer = λ d. next_fault d.faults d.drawn;
  applied = λ d. false;
  taken = plain "duplicate key";
  is_constraint = λ e. false;
  new_id = λ d. ("id", record { faults = d.faults; drawn = d.drawn });
  server_now = λ d. pos 50;
  is_json = λ text. true;
}

abbrev mission : SurveyMission
mission = record {
  id = "m";
  code = "CODE1";
  name = "survey";
  status = "active";
  timezone = "UTC";
  starts_at = pos 10;
  ends_at = pos 100;
  version = pos 3;
  created_by = "u";
}

abbrev buoy : AcousticBuoy
buoy = record {
  id = "b";
  survey_mission_id = "m";
  code = "BUOY1";
  arrayops_lane = "lane";
  required_successes = pos 2;
  completed = pos 1;
}

abbrev job : RecoveryJob
job = record {
  id = "j";
  survey_mission_id = "m";
  acoustic_buoy_id = "b";
  task_code = "TASK1";
  status = "queued";
  completed_at = none;
  accepted_at = none;
  expires_at = pos 90;
  version = pos 1;
}

abbrev tables : Tables
tables = record {
  missions = ("m", mission) ∷ [];
  buoys = ("b", buoy) ∷ [];
  jobs = ("j", job) ∷ [];
  moorings = [];
  windows = [];
  items = [];
  reports = [];
  incidents = [];
  operators = [];
  assignments = [];
  audits = [];
}

abbrev meta : RequestMeta
meta = record { request_id = "r1"; array_operator_id = none }

abbrev clock : Script → ℤ
clock d = pos 50

abbrev zones : String → Bool
zones zone = zone == "UTC"

abbrev start : World Script
start = record { tables = tables; driver = record { faults = []; drawn = 0 } }

abbrev completion : Result (Unit {0}) × World Script
unfolding Cases.move_recovery_job
completion =
    Cases.move_recovery_job (postgres scripted) (environment scripted clock clock zones) meta "j"
      (pos 1) "completed" "complete" start

completion_succeeds : completion.0 ≡ ok tt
unfolding completion after on_error Driver.in_tx Jobs.get_recovery_job Jobs.move_recovery_job
    Missions.get_survey_mission Reports.write_audit Cases.check_mission get can_move_to
completion_succeeds = refl

complete_recovery_job_lem_example :
    (s : RecoveryJob) × (m : SurveyMission) × (b : AcousticBuoy) × (started : ℤ) × (now : ℤ) × (get
        tables.jobs "j"
      ≡ some s)
    × ((s.status == "queued") ≡ true)
    × ((s.version ==ℤ pos 1) ≡ true)
    × (get tables.missions s.survey_mission_id ≡ some m)
    × (can_execute_at m started ≡ true)
    × (get tables.buoys s.acoustic_buoy_id ≡ some b)
    × (ltb_ℤ b.completed b.required_successes ≡ true)
    × (get completion.1.tables.jobs "j" ≡ some (completed_row scripted s now))
    × (get completion.1.tables.buoys s.acoustic_buoy_id ≡ some (counted_row scripted b))
unfolding completion after on_error Driver.in_tx Jobs.get_recovery_job Jobs.move_recovery_job
    Missions.get_survey_mission Reports.write_audit Cases.check_mission get can_move_to
complete_recovery_job_lem_example =
    complete_recovery_job_lem scripted clock clock zones meta "j" (pos 1) start completion.1 refl

-- The connection is lost when the event is written, after the job and its buoy were.
abbrev failing : World Script
failing = record {
  tables = tables;
  driver = record {
    faults = none ∷ none ∷ none ∷ none ∷ some (plain "connection lost") ∷ [];
    drawn = 0;
  };
}

abbrev failed : Result (Unit {0}) × World Script
unfolding run
failed =
    run (postgres scripted) (environment scripted clock clock zones) meta
      (Command.complete_recovery_job "j" (pos 1)) failing

run_atomic_example :
    (failed.1.tables ≡ tables)
    ⊎ AppliedCommit scripted (wrap "repository write: %w" (plain "connection lost")) failed.1
unfolding failed after on_error Driver.in_tx Jobs.get_recovery_job Jobs.move_recovery_job
    Missions.get_survey_mission Reports.write_audit Cases.check_mission get can_move_to run
run_atomic_example =
    run_atomic scripted clock clock zones meta (Command.complete_recovery_job "j" (pos 1)) failing
      failed.1 (wrap "repository write: %w" (plain "connection lost")) refl

-- A completion, and the same once more.
abbrev calls : List (RequestMeta × Command)
calls =
    (meta, Command.complete_recovery_job "j" (pos 1))
    ∷ (meta, Command.complete_recovery_job "j" (pos 1))
    ∷ []

run_all-logged_example :
    trail_of scripted (run_all scripted clock clock zones calls start)
    ≡ logged scripted clock clock zones calls start ++ trail_of scripted start
run_all-logged_example = run_all-logged scripted clock clock zones (λ d. refl) calls start

logged_once :
    logged scripted clock clock zones calls start ≡ ("r1", "acoustic_buoy_task", "complete") ∷ []
unfolding put run_all logged logged_of entries after on_error Driver.in_tx Jobs.get_recovery_job
    Jobs.move_recovery_job Missions.get_survey_mission Reports.write_audit Cases.check_mission get
    can_move_to run
logged_once = refl

-- A table of keys whose statements succeed; a response is its own text.
abbrev no_fault : Unit {0} → Option Error × Unit {0}
no_fault d = (none, tt)

abbrev first_byte : List ℕ → String
first_byte [] = "none"
first_byte (b ∷ bs) = if b ==ℕ 1 then "one" else "other"

abbrev keys : KeyWorld (Unit {0})
keys = record { rows = []; driver = tt }

abbrev respond : ℤ → String → Method (KeyWorld (Unit {0})) (ℤ × String)
respond code text = return (code, text)

abbrev same : Error → Error
same e = e

-- PostgreSQL writes a space after a colon.
abbrev spaced : String → String
spaced text = if text == "{\"n\":1}" then "{\"n\": 1}" else text

-- A response that is a truth value, as JSON.
abbrev to_json : Bool → Result String
to_json true = ok "{\"n\":1}"
to_json false = ok "{}"

abbrev of_json : String → Result Bool
of_json text = ok (text == "{\"n\": 1}")

json_round_trip : (v : Bool) (text : String) → to_json v ≡ ok text → of_json (spaced text) ≡ ok v
json_round_trip true text h = subst (λ t. of_json (spaced t) ≡ ok true) (ok-injective h) refl
json_round_trip false text h = subst (λ t. of_json (spaced t) ≡ ok false) (ok-injective h) refl

abbrev decide : ℤ → Bool → Method (KeyWorld (Unit {0})) (ℤ × Bool)
decide code value = return (code, value)

abbrev asked : ℤ → Bool → KeyWorld (Unit {0}) → Result (ℤ × Bool) × KeyWorld (Unit {0})
unfolding replay_or
asked code value =
    replay_or (key_store no_fault same spaced) first_byte to_json of_json "key" (1 ∷ [])
      (decide code value)

replay_or_again_example :
    (first_byte (1 ∷ []) ≡ first_byte (1 ∷ [])) × (pos 201 ≡ pos 201) × (true ≡ true)
unfolding asked replay_or after on_error get put get_idempotency put_idempotency key_store_holding
replay_or_again_example =
    replay_or_again (key_store no_fault same spaced) first_byte to_json of_json spaced
      (key_store_holding no_fault same spaced) "key" (1 ∷ []) (1 ∷ []) (decide (pos 201) true)
      (decide (pos 500) false) keys (asked (pos 201) true keys).1 (asked (pos 201) true keys).1
      (asked (pos 500) false (asked (pos 201) true keys).1).1 (pos 201) (pos 201) true true
      (λ u v x h free. subst (λ w. get w.rows "key" ≡ none) (ap (λ y. y.1) h) free) json_round_trip
      refl refl refl refl

abbrev created : ℤ → String → KeyWorld (Unit {0}) → Result (ℤ × String) × KeyWorld (Unit {0})
unfolding idempotent_create
created code text =
    idempotent_create (key_store no_fault same spaced) first_byte ok ok "key" (1 ∷ [])
      (respond code text)

idempotent_create_again_example :
    (first_byte (1 ∷ []) ≡ first_byte (1 ∷ []))
    × (pos 201 ≡ pos 201)
    × (◌≡◌ {A = String} "{\"n\": 1}" "{\"n\": 1}")
unfolding created idempotent_create after on_error get put get_idempotency put_idempotency
    key_store_holding
idempotent_create_again_example =
    idempotent_create_again (key_store no_fault same spaced) first_byte ok ok spaced
      (key_store_holding no_fault same spaced) "key" (1 ∷ []) (1 ∷ [])
      (respond (pos 201) "{\"n\":1}") (respond (pos 500) "again") keys
      (created (pos 201) "{\"n\":1}" keys).1 (created (pos 201) "{\"n\":1}" keys).1
      (created (pos 500) "again" (created (pos 201) "{\"n\":1}" keys).1).1 (pos 201) (pos 201)
      "{\"n\":1}" "{\"n\": 1}"
      (λ u v x h free. subst (λ w. get w.rows "key" ≡ none) (ap (λ y. y.1) h) free) refl refl refl
      refl
