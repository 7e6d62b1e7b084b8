-- ===== src/Telemetry/Delivery.antt =====
-- internal/telemetry/coordination.go, `Deliver`: one write to the sink, then acknowledgements until
-- one is accepted. The sink and the wait between two tries (`WaitRetry`) are functions of the world
-- that they change, whose type `W` is a parameter; `none` stands for a nil error.
pub mod Attempts
use ufo_observation_command.Base.{
  ℕ, zero, suc, ℤ, pos, pos_part, inc64, add64, leb_ℤ, ltb_ℤ, Bool, true, false, Option, none, some,
  List, if◌then◌else◌, Error, wrap,
}
use ufo_observation_command.Telemetry.Types.{invalid_error}

pub record Sink (W : Type 0) : Type 0 where
  pub persist : List ℕ → W → Option Error × W
  pub acknowledge : List ℕ → W → Option Error × W
  pub wait_retry : W → Option Error × W

-- `fmt.Errorf("acknowledge delivery: %w", last)`; with no round there is no last error to wrap.
abbrev exhausted : Option Error → Option Error
exhausted none = some (Error.plain "acknowledge delivery: %w")
exhausted (some last) = some (wrap "acknowledge delivery: %w" last)

module _ {W : Type 0} (sink : Sink W) (payload : List ℕ) where
  -- `if attempt+1 < attempts { WaitRetry }`.
  wait_between : Bool → W → Option Error × W
  wait_between true w = sink.wait_retry w
  wait_between false w = (none, w)

  -- The loop from `attempt` on, with the rounds left.
  acknowledge_from : ℕ → ℤ → ℤ → Option Error → W → Option Error × W
  unfolding wait_between
  acknowledge_from zero attempt attempts last w = (exhausted last, w)
  acknowledge_from (suc rounds) attempt attempts last w =
      let (result, w1) = sink.acknowledge payload w in
      elim result [
        | none ↦ (none, w1)
        | some e ↦
            let (stopped, w2) = wait_between (ltb_ℤ (add64 attempt (pos 1)) attempts) w1 in
            elim stopped [
              | some e' ↦ (some e', w2)
              | none ↦ acknowledge_from rounds (inc64 attempt) attempts (some e) w2
            ]
      ]

  unfoldable pub deliver : ℤ → W → Option Error × W
  unfolding acknowledge_from
  deliver attempts w =
      if leb_ℤ attempts (pos 0)
      then (some (invalid_error "attempt count is invalid: %w"), w)
      else let (result, w1) = sink.persist payload w in
        elim result [
          | some e ↦ (some e, w1)
          | none ↦ acknowledge_from (pos_part attempts) (pos 0) attempts none w1
        ]
