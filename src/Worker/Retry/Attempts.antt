-- ===== src/Worker/Retry/Attempts.antt =====
-- `RunWithRetry`: no success that the operation did not have, and no more operations than attempts.
use ufo_observation_command.Base.{
  ℕ, zero, suc, ◌+◌, ◌≤◌, ℤ, pos, pos_part, inc64, ltb_ℤ, ◌==ℤ◌, ◌≡◌, Option, none, some, Error,
  arith, Bool-cases, Option-cases, inl, inr,
}
use ufo_observation_command.Worker.Retry.{
  RetryPolicy, Environment, delay, retry_from, run_with_retry,
}

module _ {W : Type 0} (env : Environment W) (policy : RetryPolicy) where
  -- The last thing that happened is an operation that returned nil.
  abbrev pub EndsWell : W → Type 0
  EndsWell final = (w : W) × (env.operation w ≡ (none, final))

  retry_from_sound :
      (rounds : ℕ) (attempt : ℤ) (last : Option Error) (w : W)
      → (retry_from env policy rounds attempt last w).0 ≡ none
      → EndsWell (retry_from env policy rounds attempt last w).1
  unfolding retry_from
  retry_from_sound zero attempt none w h = cc
  retry_from_sound zero attempt (some e) w h = cc
  retry_from_sound (suc rounds) attempt last w h = elim (Option-cases (env.ctx_err w)) [
    | inr (e, c) ↦ absurd (ground arith)
    | inl c ↦ elim (Option-cases (env.operation w).0) [
      | inl r ↦ (w, ground arith)
      | inr (e, r) ↦ elim (Bool-cases (attempt ==ℤ policy.attempts)) [
        | inl q ↦ absurd (ground arith)
        | inr q ↦ elim (Option-cases (env.wait (delay policy attempt) (env.operation w).1).0) [
          | inr (e', b) ↦ absurd (ground arith)
          | inl b ↦
              let ended =
                retry_from_sound rounds (inc64 attempt) (some e)
                  (env.wait (delay policy attempt) (env.operation w).1).1 (ground arith) in
              (ended.0, ground (arith, ended.1))
        ]
      ]
    ]
  ]

  -- Nil comes back only when the last thing that happens is an operation that returns nil.
  pub retry_sound :
      (w : W) → (run_with_retry env policy w).0 ≡ none → EndsWell (run_with_retry env policy w).1
  unfolding run_with_retry
  retry_sound w h = elim (Bool-cases (ltb_ℤ policy.attempts (pos 1))) [
    | inl t ↦ absurd (ground arith)
    | inr t ↦
        let ended = retry_from_sound (pos_part policy.attempts) (pos 1) none w (ground arith) in
        (ended.0, ground (arith, ended.1))
  ]

  -- A count of the operations: an operation adds one to it, and a wait adds nothing.
  module _ (taken : W → ℕ) (operation_counts : (w : W) → taken (env.operation w).1 ≡ taken w + 1)
      (wait_counts : (d : ℤ) (w : W) → taken (env.wait d w).1 ≡ taken w) where
    retry_from_bounded :
        (rounds : ℕ) (attempt : ℤ) (last : Option Error) (w : W)
        → taken (retry_from env policy rounds attempt last w).1 ≤ taken w + rounds
    unfolding retry_from
    retry_from_bounded zero attempt last w = omega arith
    retry_from_bounded (suc rounds) attempt last w =
        let w1 = (env.operation w).1 in
        let w2 = (env.wait (delay policy attempt) w1).1 in
        ground (
          arith,
          operation_counts w,
          wait_counts (delay policy attempt) w1,
          retry_from_bounded rounds (inc64 attempt) (env.operation w).0 w2,
        )

    -- The operation is tried at most as many times as there are attempts.
    pub retry_bounded :
        (w : W) → taken (run_with_retry env policy w).1 ≤ taken w + pos_part policy.attempts
    unfolding run_with_retry
    retry_bounded w = ground (arith, retry_from_bounded (pos_part policy.attempts) (pos 1) none w)
