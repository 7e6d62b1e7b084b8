-- ===== src/Worker/Retry.antt =====
-- internal/worker/retry.go: retries with a delay that doubles up to a bound. The context, the timer
-- and the operation are functions of the world that they change, whose type `W` is a parameter;
-- `none` stands for a nil error. A duration is its nanoseconds, in 64 bits.
pub mod Delay
pub mod Attempts
use ufo_observation_command.Base.{
  ℕ, zero, suc, ◌+◌, ◌-◌, ◌/◌, ℤ, pos, negsuc, pos_part, sub_ℕ, inc64, add64, ltb_ℤ, leb_ℤ, ◌==ℤ◌,
  Bool, true, false, Option, none, some, Error, plain, wrap, if◌then◌else◌,
}

pub record RetryPolicy : Type 0 where
  pub attempts : ℤ
  pub base_delay : ℤ
  pub max_delay : ℤ

-- Go's `d / 2`, which rounds towards 0.
abbrev pub half : ℤ → ℤ
half (pos n) = pos (n / 2)
half (negsuc n) = sub_ℕ 0 (suc n / 2)

-- The loop, with the rounds left.
unfoldable pub delay_from : ℕ → ℤ → ℤ → ℤ
delay_from zero max d = if ltb_ℤ max d then max else d
delay_from (suc rounds) max d =
    let rest : ℤ = delay_from rounds max (add64 d d) in if leb_ℤ (half max) d then max else rest

unfoldable pub delay : RetryPolicy → ℤ → ℤ
unfolding delay_from
delay p attempt =
    let first : ℤ = if ltb_ℤ attempt (pos 1) then pos 1 else attempt in
    delay_from (pos_part first - 1) p.max_delay p.base_delay

-- What `RunWithRetry` is given: the context's error, the operation, and the wait of some time, which
-- the context may end with its error.
pub record Environment (W : Type 0) : Type 0 where
  pub ctx_err : W → Option Error
  pub operation : W → Option Error × W
  pub wait : ℤ → W → Option Error × W

-- `fmt.Errorf("operation failed after %d attempts: %w", ...)`; without a round there is no error to wrap.
abbrev pub gave_up : Option Error → Option Error
gave_up none = some (plain "operation failed after %d attempts: %w")
gave_up (some last) = some (wrap "operation failed after %d attempts: %w" last)

module _ {W : Type 0} (env : Environment W) (policy : RetryPolicy) where
  -- The loop from `attempt` on, with the rounds left; `last` is the error of the round before.
  unfoldable pub retry_from : ℕ → ℤ → Option Error → W → Option Error × W
  retry_from zero attempt last w = (gave_up last, w)
  retry_from (suc rounds) attempt last w = elim (env.ctx_err w) [
    | some e ↦ (some e, w)
    | none ↦
        let (result, w1) = env.operation w in
        elim result [
          | none ↦ (none, w1)
          | some e ↦ elim (attempt ==ℤ policy.attempts) [
            | true ↦ (gave_up (some e), w1)
            | false ↦
                let (stopped, w2) = env.wait (delay policy attempt) w1 in
                elim stopped [
                  | some e' ↦ (some e', w2)
                  | none ↦ retry_from rounds (inc64 attempt) (some e) w2
                ]
          ]
        ]
  ]

  unfoldable pub run_with_retry : W → Option Error × W
  unfolding retry_from
  run_with_retry w =
      if ltb_ℤ policy.attempts (pos 1)
      then (some (plain "retry attempts must be positive"), w)
      else retry_from (pos_part policy.attempts) (pos 1) none w
