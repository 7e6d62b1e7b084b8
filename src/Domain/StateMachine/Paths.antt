-- ===== src/Domain/StateMachine/Paths.antt =====
-- What the graphs of states accept as a path.
use ufo_observation_command.Base.{
  String, ◌≡◌, ◌≢◌, ◌↔◌, refl, sym, subst, true, List, [], ◌∷◌, ok, arith,
}
use ufo_observation_command.Domain.StateMachine.{StateMachine, allows, check_steps, validate_path}

-- One edge after another from the first state to the last.
pub data Walk (m : StateMachine) : String → List String → Type 0 where
  stop : (s : String) → Walk m s []
  go :
      (s t : String) (rest : List String)
      → allows m s t ≡ true
      → Walk m t rest
      → Walk m s (t ∷ rest)

check_steps-Walk :
    (m : StateMachine) (s : String) (ts : List String) → check_steps m s ts ≡ ok tt → Walk m s ts
unfolding check_steps
check_steps-Walk m s [] h = stop s
check_steps-Walk m s (t ∷ ts) h = go s t ts (ground arith) (check_steps-Walk m t ts (ground arith))

Walk-check_steps :
    (m : StateMachine) (s : String) (ts : List String) → Walk m s ts → check_steps m s ts ≡ ok tt
unfolding check_steps
Walk-check_steps m s ts (stop _) = refl
Walk-check_steps m s ts (go _ t rest edge walk) =
    let more = Walk-check_steps m t rest walk in ground arith

two_states : (s x y : String) (rest : List String) → (s ∷ []) ≢ (x ∷ y ∷ rest)
two_states s x y rest e = absurd cc

-- The path after its first state is a walk from there.
abbrev Starts : StateMachine → List String → Type 0
Starts m [] = Unit
Starts m (s ∷ rest) = Walk m s rest

-- A path is accepted exactly when it has two states at least and walks along edges of the graph.
pub validate_path_iff :
    (m : StateMachine) (path : List String)
    → (validate_path m path ≡ ok tt)
      ↔ ((s t : String) × (rest : List String) × (path ≡ s ∷ t ∷ rest) × Walk m s (t ∷ rest))
unfolding validate_path
validate_path_iff m [] = (λ h. absurd (ground arith), λ h. absurd cc)
validate_path_iff m (s ∷ []) = (λ h. absurd (ground arith), λ h. absurd (two_states s _ _ _ h.3))
validate_path_iff m (s ∷ t ∷ rest) = (
  λ h. (s, t, rest, refl, check_steps-Walk m s (t ∷ rest) h),
  λ h. Walk-check_steps m s (t ∷ rest) (subst (Starts m) (sym h.3) h.4),
)
