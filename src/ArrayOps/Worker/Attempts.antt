-- ===== src/ArrayOps/Worker/Attempts.antt =====
-- `RunSteps`: no success that no step had, and no more steps than attempts.
use ufo_observation_command.Base.{
  ℕ, zero, suc, ◌+◌, ◌-◌, ◌≤◌, ℤ, pos, pos_part, inc64, add64, int64, two63, leb_ℤ, ltb_ℤ, ◌<ℤ◌,
  ◌≡◌, ◌≢◌, ◌⊎◌, ◌<◌, refl, Bool, true, false, Option, none, some, some-injective, Error, arith,
  Option-cases, Bool-cases, inl, inr, sym, ap, ◌∙◌, subst,
}
use ufo_observation_command.ArrayOps.Worker.{Environment, wait_between, steps_from, run_steps}

module _ {W : Type 0} (env : Environment W) where
  -- The last thing that happened is a step that returned nil.
  abbrev pub EndsWithSuccess : W → Type 0
  EndsWithSuccess final = (attempt : ℤ) × (w : W) × (env.step attempt w ≡ (none, final))

  steps_from_sound :
      (fuel : ℕ) (attempt attempts : ℤ) (last : Option Error) (w w' : W)
      → (leb_ℤ attempt attempts ≡ true) ⊎ (last ≢ none)
      → steps_from env fuel attempt attempts last w ≡ some (none, w')
      → EndsWithSuccess w'
  unfolding steps_from
  steps_from_sound zero attempt attempts last w w' l h = absurd (ground arith)
  steps_from_sound (suc fuel) attempt attempts last w w' l h =
      elim (Bool-cases (leb_ℤ attempt attempts)) [
        | inr t ↦ elim l [
          | inl u ↦ absurd (ground arith)
          | inr u ↦ absurd (u (ap (λ r. r.0) (some-injective _ _ (rw (t, steps_from) at h))))
        ]
        | inl t ↦ elim (Option-cases (env.ctx_err w)) [
          | inr (e, c) ↦ absurd (ground (arith, rw (t, c, steps_from) at h))
          | inl c ↦ elim (Option-cases (env.step attempt w).0) [
            | inl r ↦
                let same = some-injective _ _ (rw (t, c, r, steps_from) at h) in
                (attempt, w, ground (arith, same))
            | inr (e, r) ↦
                elim (Option-cases
                  (wait_between env (ltb_ℤ attempt attempts) (env.step attempt w).1).0) [
                    | inr (e', b) ↦ absurd (ground (arith, rw (t, c, r, b, steps_from) at h))
                    | inl b ↦
                        steps_from_sound fuel (inc64 attempt) attempts (some e)
                          (wait_between env (ltb_ℤ attempt attempts) (env.step attempt w).1).1 w'
                          (inr (λ x. cc)) (rw (t, c, r, b, steps_from) at h)
                  ]
          ]
        ]
      ]

  -- With a positive number of attempts, nil comes back only when the last step taken returned nil,
  -- and then nothing happens after that step.
  pub run_steps_sound :
      (fuel : ℕ) (attempts : ℤ) (w w' : W)
      → pos 0 <ℤ attempts
      → run_steps env fuel attempts w ≡ some (none, w')
      → EndsWithSuccess w'
  unfolding run_steps
  run_steps_sound fuel attempts w w' p h =
      let t : leb_ℤ attempts (pos 0) ≡ false = ground (arith, p) in
      steps_from_sound fuel (pos 1) attempts none w w' (inl (ground (arith, p)))
        (rw (t, run_steps) at h)

  -- A count of the steps taken: a step adds one to it, and a wait adds nothing.
  module _ (taken : W → ℕ)
      (step_counts : (attempt : ℤ) (w : W) → taken (env.step attempt w).1 ≡ taken w + 1)
      (wait_counts : (w : W) → taken (env.wait_backoff w).1 ≡ taken w) where
    wait_between_counts : (b : Bool) (w : W) → taken (wait_between env b w).1 ≡ taken w
    unfolding wait_between
    wait_between_counts true w = wait_counts w
    wait_between_counts false w = refl

    -- It returned, after so many steps at most.
    abbrev pub Within : Option (Option Error × W) → ℕ → Type 0
    Within result most =
        (answer : Option Error × W) × (result ≡ some answer) × (taken answer.1 ≤ most)

    steps_from_bounded :
        (rounds fuel attempt attempts : ℕ) (last : Option Error) (w : W)
        → rounds < fuel
        → attempt + rounds ≡ attempts + 1
        → suc attempts < two63
        → Within (steps_from env fuel (pos attempt) (pos attempts) last w) (taken w + rounds)
    unfolding steps_from
    steps_from_bounded rounds zero attempt attempts last w f e s = absurd (omega arith)
    steps_from_bounded zero (suc fuel) attempt attempts last w f e s =
        let t : leb_ℤ (pos attempt) (pos attempts) ≡ false = ground arith in
        rw (t, steps_from) ((last, w), refl, omega arith)
    steps_from_bounded (suc rounds) (suc fuel) attempt attempts last w f e s =
        let t : leb_ℤ (pos attempt) (pos attempts) ≡ true = ground arith in
        let w1 = (env.step (pos attempt) w).1 in
        let w2 = (wait_between env (ltb_ℤ (pos attempt) (pos attempts)) w1).1 in
        let waited : taken w2 ≡ taken w + 1 =
          wait_between_counts (ltb_ℤ (pos attempt) (pos attempts)) w1
          ∙ step_counts (pos attempt) w in
        elim (Option-cases (env.ctx_err w)) [
          | inr (e', c) ↦ rw (t, c, steps_from) ((some e', w), refl, omega arith)
          | inl c ↦ elim (Option-cases (env.step (pos attempt) w).0) [
            | inl r ↦
                rw (t, c, r, steps_from)
                  ((none, w1), refl, omega (arith, step_counts (pos attempt) w))
            | inr (e', r) ↦
                elim (Option-cases (wait_between env (ltb_ℤ (pos attempt) (pos attempts)) w1).0) [
                  | inr (e'', b) ↦
                      rw (t, c, r, b, steps_from) ((some e'', w2), refl, omega (arith, waited))
                  | inl b ↦
                      let next : inc64 (pos attempt) ≡ pos (attempt + 1) =
                        unfold inc64 in unfold add64 in unfold int64 in ground arith in
                      let (answer, same, few) =
                        steps_from_bounded rounds fuel (attempt + 1) attempts (some e') w2
                          (omega arith) (omega arith) s in
                      rw (t, c, r, b, next, steps_from) (answer, same, omega (arith, few, waited))
                ]
          ]
        ]

    -- For a number of attempts below 2^63 - 1, RunSteps returns, on any fuel above that number, after
    -- at most as many steps as attempts, for any count that a step advances by one and a wait leaves
    -- alone.
    pub run_steps_bounded :
        (fuel : ℕ) (attempts : ℤ) (w : W)
        → attempts <ℤ pos (two63 - 1)
        → pos_part attempts < fuel
        → Within (run_steps env fuel attempts w) (taken w + pos_part attempts)
    unfolding run_steps
    run_steps_bounded fuel attempts w s f = elim (Bool-cases (leb_ℤ attempts (pos 0))) [
      | inl t ↦ rw (t, run_steps) (_, refl, omega arith)
      | inr t ↦
          let whole : attempts ≡ pos (pos_part attempts) = ground arith in
          rw (t, run_steps)
            (subst
              (λ a. Within (steps_from env fuel (pos 1) a none w) (taken w + pos_part attempts))
              (sym whole)
              (steps_from_bounded (pos_part attempts) fuel 1 (pos_part attempts) none w f
                (omega arith) (ground arith)))
    ]
