-- ===== src/Domain/Tests.antt =====
-- Runs of internal/domain at concrete inputs, and the theorems about it at such inputs.
use ufo_observation_command.Base.{
  ◌+◌, ◌≤◌, ℤ, pos, ◌≤ℤ◌, inc64, String, ◌==◌, false, ◌≡◌, ◌↔◌, refl, none, some, get, List, [],
  ◌∷◌, All, ok, string_key, true, add64, trim_space, arith,
}
use ufo_observation_command.Domain.RecoveryJob.{RecoveryJob, move, can_move_to}
use ufo_observation_command.Domain.RecoveryJob.Moves.{
  moves, moves_lem, stage, bumped, InTime, IsRecorded,
}
use ufo_observation_command.Domain.DiveWindow.{DiveWindow, add_recovery_jobs}
use ufo_observation_command.Domain.DiveWindow.Jobs.{NotBlank, add_recovery_jobs_iff}
use ufo_observation_command.Domain.Distinct.{NoRepeats}
use ufo_observation_command.Domain.Bulk.{RecoveryJobRequest}
use ufo_observation_command.Domain.StateMachine.{default_dive_window_machine}
use ufo_observation_command.Domain.StateMachine.{member}
use ufo_observation_command.Domain.StateMachine.Reachable.{reachable}
use ufo_observation_command.Domain.StateMachine.Reachable.Correct.{Reach, reachable_iff}
use ufo_observation_command.Domain.ChamberLoad.{ChamberLoad, validate_chamber_load}
use ufo_observation_command.Domain.ChamberLoad.Volumes.{SuitsFirst, validate_chamber_load_iff}
use ufo_observation_command.Domain.Search.{
  SearchRequest, search_recovery_jobs, found_jobs, matches, normalize_filter, normalize_request,
  in_order, comes_before,
}
use ufo_observation_command.Domain.Search.Pages.{Searched, search_recovery_jobs_lem}
use ufo_observation_command.ArrayOps.Store.{compare_string}

abbrev job : RecoveryJob
job = record {
  id = "j";
  survey_mission_id = "m";
  acoustic_buoy_id = "b";
  task_code = "c";
  status = "completed";
  completed_at = some (pos 1);
  accepted_at = none;
  expires_at = pos 50;
  version = pos 2;
}

abbrev steps : List (String × ℤ)
steps = ("activation_pending", pos 5) ∷ ("accepted", pos 50) ∷ []

abbrev accepted_job : RecoveryJob
accepted_job = record job { status = "accepted"; accepted_at = some (pos 50); version = pos 4 }

two_moves : moves job steps ≡ ok accepted_job
unfolding moves move can_move_to inc64
two_moves = refl

moves_lem_example :
    (stage "accepted" ≡ stage "completed" + 2)
    × (2 ≤ 6)
    × (pos 4 ≡ bumped 2 (pos 2))
    × All (InTime (pos 50)) steps
    × (IsRecorded job → IsRecorded accepted_job)
moves_lem_example = moves_lem job accepted_job steps two_moves

abbrev window : DiveWindow
window = record {
  id = "w";
  code = "W1";
  status = "queued";
  method = "sonar";
  capacity = pos 3;
  recovery_jobs = "j1" ∷ [];
  version = pos 1;
}

add_recovery_jobs_iff_example :
    (add_recovery_jobs window ("j2" ∷ []) ≡ ok (record window { recovery_jobs = "j1" ∷ "j2" ∷ [] }))
    ↔ (All NotBlank ("j2" ∷ [])
        × NoRepeats ("j1" ∷ "j2" ∷ [])
        × (pos 2 ≤ℤ pos 3)
        × (record window { recovery_jobs = "j1" ∷ "j2" ∷ [] }
            ≡ record window { recovery_jobs = "j1" ∷ "j2" ∷ [] }))
add_recovery_jobs_iff_example =
    add_recovery_jobs_iff window (record window { recovery_jobs = "j1" ∷ "j2" ∷ [] }) ("j2" ∷ [])
      (tt, tt)

abbrev request : String → RecoveryJobRequest
request code = record {
  survey_mission_id = "m";
  acoustic_buoy_id = "b";
  task_code = code;
  expires_at = pos 9;
}

abbrev lot : String → ℤ → ChamberLoad
lot id volume_litres = record {
  lot_id = id;
  material = "paper";
  volume_litres = volume_litres;
  requires_anoxia = true;
}

validate_chamber_load_iff_example :
    (validate_chamber_load (pos 9) (lot "a" (pos 3) ∷ lot "b" (pos 4) ∷ []) ≡ ok tt) ↔ (
      SuitsFirst (lot "a" (pos 3) ∷ lot "b" (pos 4) ∷ [])
      × NoRepeats ("a" ∷ "b" ∷ [])
      × (pos 7 ≤ℤ pos 9))
validate_chamber_load_iff_example =
    validate_chamber_load_iff (pos 9) (lot "a" (pos 3) ∷ lot "b" (pos 4) ∷ []) (omega arith)

-- The sum of two large volumes wraps around to -2 and is within every capacity.
large_volumes_accepted :
    validate_chamber_load
      (pos 9)
      (lot "a" (pos 9223372036854775807) ∷ lot "b" (pos 9223372036854775807) ∷ [])
    ≡ ok tt
unfolding validate_chamber_load add64 trim_space
large_volumes_accepted = refl

reachable_iff_example :
    (states : List String) × (reachable default_dive_window_machine "running" ≡ some states)
    × ((x : String) → (member states x ≡ true) ↔ Reach default_dive_window_machine "running" x)
reachable_iff_example = reachable_iff default_dive_window_machine "running"

reached :
    reachable default_dive_window_machine "running"
    ≡ some ("cancelled" ∷ "completed" ∷ "running" ∷ [])
unfolding reachable default_dive_window_machine get compare_string
reached = refl

abbrev early_job : RecoveryJob
early_job = record job { id = "i"; expires_at = pos 20 }

abbrev other_job : RecoveryJob
other_job = record job { survey_mission_id = "n" }

abbrev some_jobs : List RecoveryJob
some_jobs = job ∷ other_job ∷ early_job ∷ []

abbrev by_expiry : SearchRequest
by_expiry = record {
  filter = record { survey_mission_id = "m"; status = ""; search = "" };
  sort = "expires_at";
  desc = false;
  offset = pos 1;
  limit = pos 0;
}

search_recovery_jobs_lem_example :
    Searched
      (λ s. s)
      (λ s t. s == t)
      some_jobs
      by_expiry
      (search_recovery_jobs (λ s. s) (λ s t. s == t) some_jobs by_expiry)
search_recovery_jobs_lem_example =
    search_recovery_jobs_lem (λ s. s) (λ s t. s == t) some_jobs by_expiry

second_page : search_recovery_jobs (λ s. s) (λ s t. s == t) some_jobs by_expiry ≡ job ∷ []
unfolding search_recovery_jobs found_jobs matches normalize_filter normalize_request in_order
    comes_before trim_space
second_page = refl
