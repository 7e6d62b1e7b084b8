-- ===== src/Repository/Policy/Attempts.antt =====
-- internal/repository/transaction_policy.go: what the attempts of RunWithPolicy leave behind.
use ufo_observation_command.Base.{
  ℕ, zero, suc, ℤ, pos, ◌==ℤ◌, String, not, ◌||◌, Option, none, some, ◌≡◌, refl, inl, inr, ◌⊎◌,
  true, false, wrap, sym, ap, subst, arith, Error, Result, ok, err, Result-cases, Method,
  Bool-cases, pos_part,
}
use ufo_observation_command.Repository.Driver.{Driver, World, in_tx, in_serializable, transaction}
use ufo_observation_command.Repository.Tables.{Tables}
use ufo_observation_command.Repository.Driver.Outcomes.{transaction-ok, transaction-err}
use ufo_observation_command.Repository.Policy.{
  TransactionPolicy, validate, retryable, pause_before, attempt_once, after_pause, after_attempt,
  run_attempts, run_with_policy,
}

module _ {D : Type 0} (sql : Driver D) (code_of : Error → Option String)
    (pause : ℤ → World D → Option Error × World D) (policy : TransactionPolicy)
    (f : Method (World D) (Unit {0})) where
  -- From some tables to others by the changes of other transactions in so many pauses.
  abbrev pub Pauses : ℕ → Tables → Tables → Type 0
  Pauses zero t t' = t' ≡ t
  Pauses (suc n) t t' =
      (ms : ℤ) × (w : World D) × (w.tables ≡ t) × Pauses n (pause ms w).1.tables t'

  -- A run of the function that succeeded on some tables, and the tables are what it left.
  abbrev pub RanOn : Tables → World D → Type 0
  RanOn t w' =
      (u : World D) × (v : World D) × (u.tables ≡ t) × (f u ≡ (ok tt, v)) × (w'.tables ≡ v.tables)

  -- After the pauses: one run of it that succeeded, or nothing, or one run whose COMMIT was applied
  -- though it reported an error.
  abbrev pub Outcome : Tables → Result (Unit {0}) × World D → Type 0
  Outcome t (ok tt, w') = RanOn t w'
  Outcome t (err e, w') = (w'.tables ≡ t) ⊎ ((sql.applied w'.driver ≡ true) × RanOn t w')

  abbrev pub PausedOutcome : Tables → Result (Unit {0}) × World D → Type 0
  PausedOutcome t x = (n : ℕ) × (t' : Tables) × Pauses n t t' × Outcome t' x

  -- An error of COMMIT that is tried again: PostgreSQL has aborted the transaction.
  abbrev pub Aborts : Type 0
  Aborts =
      (text : String) (e : Error) (d d' : D)
      → sql.answer d ≡ (some e, d')
      → retryable code_of (wrap text e) ≡ true
      → sql.applied d' ≡ false

  -- What an attempt that fails has done: nothing if it is tried again.
  abbrev pub Attempted : World D → Result (Unit {0}) × World D → Type 0
  Attempted w (ok tt, w') = RanOn w.tables w'
  Attempted w (err e, w') =
      (w'.tables ≡ w.tables)
      ⊎ ((retryable code_of e ≡ false) × (sql.applied w'.driver ≡ true) × RanOn w.tables w')

  module _ (aborts : Aborts) where
    of_error :
        (begin_text commit_text : String) (w w' : World D) (e : Error)
        → transaction sql begin_text commit_text f w ≡ (err e, w')
        → Attempted w (err e, w')
    of_error begin_text commit_text w w' e h =
        elim (transaction-err sql begin_text commit_text f w w' h) [
          | inl same ↦ inl same
          | inr (e', d, answer, wrapped, applied, a, u, v, on, ran, left) ↦ inr (
            elim (Bool-cases (retryable code_of e)) [
              | inr t ↦ t
              | inl t ↦ absurd (
                  ground (
                    arith,
                    applied,
                    aborts commit_text e' d w'.driver answer
                        (subst (λ e. retryable code_of e ≡ true) wrapped t),
                  ))
            ],
            applied,
            (u, v, on, ran, left),
          )
        ]

    tried :
        (begin_text commit_text : String) (w : World D) (x : Result (Unit {0}) × World D)
        → transaction sql begin_text commit_text f w ≡ x
        → Attempted w x
    tried begin_text commit_text w (ok tt, w') h =
        transaction-ok sql begin_text commit_text f w w' h
    tried begin_text commit_text w (err e, w') h = of_error begin_text commit_text w w' e h

    attempt_once-Attempted : (w : World D) → Attempted w (attempt_once sql code_of pause policy f w)
    unfolding attempt_once in_serializable in_tx
    attempt_once-Attempted w = elim (Bool-cases policy.serializable) [
      | inl t ↦ rw t (tried _ _ w (in_serializable sql f w) refl)
      | inr t ↦ rw t (tried _ _ w (in_tx sql f w) refl)
    ]

    paused :
        (w v : World D) (ms : ℤ) (next : Method (World D) (Unit {0})) (x : Option Error × World D)
        → pause ms v ≡ x
        → v.tables ≡ w.tables
        → ((v : World D) → PausedOutcome v.tables (next v))
        → PausedOutcome w.tables (after_pause sql code_of pause policy x next)
    unfolding after_pause
    paused w v ms next (some e, u) p same goes =
        (1, u.tables, (ms, v, same, ap (λ x. x.1.tables) (sym p)), inl refl)
    paused w v ms next (none, u) p same goes =
        let (n, t, pauses, outcome) = goes u in
        (suc n, t, (ms, v, same, subst (λ x. Pauses n x.1.tables t) (sym p) pauses), outcome)

    after_attempt-PausedOutcome :
        (w : World D) (attempt : ℕ) (x : Result (Unit {0}) × World D)
        (next : Method (World D) (Unit {0}))
        → Attempted w x
        → ((v : World D) → PausedOutcome v.tables (next v))
        → PausedOutcome w.tables (after_attempt sql code_of pause policy attempt x next)
    unfolding after_attempt after_pause
    after_attempt-PausedOutcome w attempt (ok tt, v) next a goes = (0, w.tables, refl, a)
    after_attempt-PausedOutcome w attempt (err e, v) next (inr (final, applied, ran)) goes =
        rw (final, after_attempt) (0, w.tables, refl, inr (applied, ran))
    after_attempt-PausedOutcome w attempt (err e, v) next (inl same) goes =
        elim (Bool-cases (not (retryable code_of e) || pos attempt ==ℤ policy.retry_attempts)) [
          | inl t ↦ rw (t, after_attempt) (0, w.tables, refl, inl same)
          | inr t ↦
              rw (t, after_attempt)
                (paused w v (pause_before attempt) next (pause (pause_before attempt) v) refl same
                  goes)
        ]

    run_attempts-PausedOutcome :
        (rounds attempt : ℕ) (w : World D)
        → PausedOutcome w.tables (run_attempts sql code_of pause policy rounds attempt f w)
    unfolding run_attempts
    run_attempts-PausedOutcome zero attempt w = (0, w.tables, refl, inl refl)
    run_attempts-PausedOutcome (suc rounds) attempt w =
        after_attempt-PausedOutcome w attempt (attempt_once sql code_of pause policy f w)
          (λ v. run_attempts sql code_of pause policy rounds (suc attempt) f v)
          (attempt_once-Attempted w) (λ v. run_attempts-PausedOutcome rounds (suc attempt) v)

    -- When the server has aborted each transaction whose COMMIT reports an error that is tried again:
    -- the tables after RunWithPolicy are those before it, changed by other transactions in the pauses
    -- between the attempts alone, and then by one run of its function that succeeded, if nil is
    -- returned. If an error is returned, they are changed by no run of it, or by one whose COMMIT was
    -- applied though it reported an error.
    pub run_with_policy_lem :
        (w : World D) → PausedOutcome w.tables (run_with_policy sql code_of pause policy f w)
    unfolding run_with_policy
    run_with_policy_lem w = elim (Result-cases (validate policy)) [
      | inl (e, h) ↦ rw (h, run_with_policy) (0, w.tables, refl, inl refl)
      | inr (u, h) ↦
          rw (h, run_with_policy) (run_attempts-PausedOutcome (pos_part policy.retry_attempts) 1 w)
    ]
