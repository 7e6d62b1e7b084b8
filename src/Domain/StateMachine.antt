-- ===== src/Domain/StateMachine.antt =====
-- internal/domain/state_machine.go and transition.go: graphs of states, given by their edges.
pub mod Paths
pub mod Reachable
use ufo_observation_command.Base.{
  ℕ, zero, suc, String, ◌==◌, string_key, Bool, true, false, not, ◌||◌, Option, none, some, List,
  [], ◌∷◌, ◌++◌, length, any, if◌then◌else◌, Dict, get, Result, ok, err, ◌>>◌, ◌>>=◌, refuse,
}
use ufo_observation_command.Domain.Errors.{conflict_error, transition_error}

-- A state with the set of its destinations, kept as a list.
pub record StateMachine : Type 0 where
  pub states : Dict String (List String)

-- `NewStateMachine` turns each list of destinations into a set.
unfoldable pub new_state_machine : Dict String (List String) → StateMachine
new_state_machine edges = record { states = edges }

abbrev pub member : List String → String → Bool
member xs x = any (λ y. y == x) xs

unfoldable pub allows : StateMachine → String → String → Bool
allows m from to = elim (get m.states from) [
  | none ↦ false
  | some destinations ↦ member destinations to
]

unfoldable pub check_steps : StateMachine → String → List String → Result (Unit {0})
check_steps m previous [] = ok tt
check_steps m previous (next ∷ rest) =
    let more : Result (Unit {0}) = check_steps m next rest in
    if not (allows m previous next)
    then err (transition_error "%s -> %s is not allowed: %w")
    else more

unfoldable pub validate_path : StateMachine → List String → Result (Unit {0})
unfolding check_steps
validate_path m [] = err (transition_error "state path needs at least two states: %w")
validate_path m (start ∷ []) = err (transition_error "state path needs at least two states: %w")
validate_path m (start ∷ next ∷ rest) = check_steps m start (next ∷ rest)

unfoldable pub default_survey_mission_machine : StateMachine
unfolding new_state_machine
default_survey_mission_machine = new_state_machine (
    ("draft", "scheduled" ∷ [])
    ∷ ("scheduled", "active" ∷ "closed" ∷ [])
    ∷ ("active", "closed" ∷ [])
    ∷ [])

unfoldable pub default_recovery_job_machine : StateMachine
unfolding new_state_machine
default_recovery_job_machine = new_state_machine (
    ("queued", "completed" ∷ [])
    ∷ ("completed", "activation_pending" ∷ [])
    ∷ ("activation_pending", "accepted" ∷ [])
    ∷ ("accepted", "in_progress" ∷ [])
    ∷ ("in_progress", "verified" ∷ "rejected" ∷ [])
    ∷ ("verified", "archived" ∷ [])
    ∷ ("rejected", "archived" ∷ [])
    ∷ [])

unfoldable pub default_dive_window_machine : StateMachine
unfolding new_state_machine
default_dive_window_machine =
    new_state_machine
      (("queued", "running" ∷ "cancelled" ∷ []) ∷ ("running", "completed" ∷ "cancelled" ∷ []) ∷ [])

-- internal/domain/transition.go
pub record Transition : Type 0 where
  pub from : String
  pub to : String
  pub actor : String
  pub request_id : String

unfoldable pub validate_transition : Transition → Result (Unit {0})
validate_transition t = do
  refuse (t.from == "" || t.to == "" || t.actor == "" || t.request_id == "")
      (conflict_error "transition metadata is incomplete: %w")
  refuse (t.from == t.to) (transition_error "transition must change state: %w")
  ok tt

unfoldable pub transition_path : String → List String → Result (Unit {0})
transition_path previous [] = ok tt
transition_path previous (step ∷ steps) =
    let rest : Result (Unit {0}) = transition_path step steps in
    if step == "" || step == previous
    then err (transition_error "invalid transition path: %w")
    else rest
