-- ===== src/ArrayOps/Worker.antt =====
-- internal/arrayops/worker.go: retries with a backoff, and steps that run once for a key. Both call
-- out, to the context, to the timer and to the caller's function: each such call is a function of
-- the world that it changes, whose type `W` is a parameter. `none` stands for a nil error.
pub mod Attempts
pub mod Once
use ufo_observation_command.Base.{
  ℕ, zero, suc, ℤ, pos, pos_part, inc64, leb_ℤ, ltb_ℤ, String, Bool, true, false, Option, none,
  some, List, ◌∷◌, any, ◌==◌, if◌then◌else◌, Error,
}
use ufo_observation_command.ArrayOps.Policy.{invalid_error}

-- What `RunSteps` is given: the context's error, the wait for the backoff, and the step.
pub record Environment (W : Type 0) : Type 0 where
  pub ctx_err : W → Option Error
  pub wait_backoff : W → Option Error × W
  pub step : ℤ → W → Option Error × W

module _ {W : Type 0} (env : Environment W) where
  -- `if attempt < attempts { WaitBackoff }`.
  wait_between : Bool → W → Option Error × W
  wait_between true w = env.wait_backoff w
  wait_between false w = (none, w)

  -- The loop, on fuel; `last` is the error of the round before, and `none` says that the fuel ran
  -- out. The test is the source's: for `attempts` equal to 2^63 - 1 it never fails, as `attempt++`
  -- wraps.
  steps_from : ℕ → ℤ → ℤ → Option Error → W → Option (Option Error × W)
  unfolding wait_between
  steps_from zero attempt attempts last w = none
  steps_from (suc fuel) attempt attempts last w = elim (leb_ℤ attempt attempts) [
    | false ↦ some (last, w)
    | true ↦ elim (env.ctx_err w) [
      | some e ↦ some (some e, w)
      | none ↦
          let (result, w1) = env.step attempt w in
          elim result [
            | none ↦ some (none, w1)
            | some e ↦
                let (stopped, w2) = wait_between (ltb_ℤ attempt attempts) w1 in
                elim stopped [
                  | some e' ↦ some (some e', w2)
                  | none ↦ steps_from fuel (inc64 attempt) attempts (some e) w2
                ]
          ]
    ]
  ]

  unfoldable pub run_steps : ℕ → ℤ → W → Option (Option Error × W)
  unfolding steps_from
  run_steps fuel attempts w =
      if leb_ℤ attempts (pos 0)
      then some (some (invalid_error "worker retry policy is invalid: %w"), w)
      else steps_from fuel (pos 1) attempts none w

-- The keys that have run, and the world of `execute`.
pub record OnceStep (W : Type 0) : Type 0 where
  pub seen : List String
  pub world : W

module _ {W : Type 0} (execute : String → W → Option Error × W) where
  -- The first critical section of `Run`: is the key there?
  unfoldable pub is_seen : String → OnceStep W → Bool
  is_seen key s = any (λ k. k == key) s.seen

  -- The call between the two critical sections.
  unfoldable pub perform : String → OnceStep W → Option Error × OnceStep W
  perform key s = let (result, w) = execute key s.world in (result, record s { world = w })

  -- The second critical section.
  unfoldable pub mark : String → OnceStep W → OnceStep W
  mark key s = record s { seen = if any (λ k. k == key) s.seen then s.seen else key ∷ s.seen }

  -- What a `Run` that was not seen does after `perform`.
  unfoldable pub finish : String → Option Error × OnceStep W → Option Error × OnceStep W
  unfolding mark
  finish key (some e, s) = (some e, s)
  finish key (none, s) = (none, mark key s)

  -- `Run` with no other call in between.
  unfoldable pub run : String → OnceStep W → Option Error × OnceStep W
  unfolding is_seen perform finish
  run key s = if is_seen key s then (none, s) else finish key (perform key s)
