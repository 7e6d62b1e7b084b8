-- ===== src/Domain/StateMachine/Reachable.antt =====
-- internal/domain/state_machine.go: Reachable, a search in breadth from a state.
pub mod Scan
pub mod Correct
use ufo_observation_command.Base.{
  ℕ, zero, suc, ℤ, pos, ltb_ℤ, String, string_key, Bool, true, false, if◌then◌else◌, Option, none,
  some, List, [], ◌∷◌, ◌++◌, length, Dict, get,
}
use ufo_observation_command.ArrayOps.Store.{compare_string}
use ufo_observation_command.Domain.StateMachine.{StateMachine, member}

-- The states that were met, newest first, and those that wait for their turn.
pub record Search : Type 0 where
  pub visited : List String
  pub queue : List String

-- `m.states[current]`; Go leaves the order of its walk open, as does that of the list.
abbrev pub destinations : StateMachine → String → List String
destinations m current = elim (get m.states current) [ none ↦ [] | some next ↦ next ]

-- The body of the inner loop.
unfoldable pub visit : Search → String → Search
visit s next =
    if member s.visited next
    then s
    else record { visited = next ∷ s.visited; queue = s.queue ++ (next ∷ []) }

unfoldable pub visit_all : Search → List String → Search
unfolding visit
visit_all s [] = s
visit_all s (next ∷ rest) = visit_all (visit s next) rest

-- The outer loop; `none` when the rounds run out.
unfoldable pub search_from : StateMachine → ℕ → Search → Option Search
unfolding visit_all
search_from m zero s = elim s.queue [ [] ↦ some s | current ∷ rest ↦ none ]
search_from m (suc rounds) s = elim s.queue [
  | [] ↦ some s
  | current ∷ rest ↦
      search_from m rounds (visit_all (record s { queue = rest }) (destinations m current))
]

-- `sort.Strings`.
unfoldable pub insert_string : String → List String → List String
insert_string x [] = x ∷ []
insert_string x (y ∷ rest) =
    let later : List String = insert_string x rest in
    if ltb_ℤ (pos 0) (compare_string x y) then y ∷ later else x ∷ y ∷ rest

unfoldable pub sort_strings : List String → List String
unfolding insert_string
sort_strings [] = []
sort_strings (x ∷ rest) = insert_string x (sort_strings rest)

-- All that a search can meet: the start and every destination.
abbrev pub all_destinations : Dict String (List String) → List String
all_destinations [] = []
all_destinations ((from, next) ∷ rest) = next ++ all_destinations rest

abbrev pub universe : StateMachine → String → List String
universe m start = start ∷ all_destinations m.states

unfoldable pub reachable : StateMachine → String → Option (List String)
unfolding search_from sort_strings
reachable m start =
    elim (search_from m (length (universe m start))
      (record { visited = start ∷ []; queue = start ∷ [] })) [
        | none ↦ none
        | some s ↦ some (sort_strings s.visited)
      ]
