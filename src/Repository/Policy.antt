-- ===== src/Repository/Policy.antt =====
-- internal/repository/transaction_policy.go: transactions that are tried again.
pub mod Attempts
use ufo_observation_command.Base.{
  ℕ, zero, suc, ◌+◌, ◌*◌, ℤ, pos, pos_part, int64, ltb_ℤ, leb_ℤ, ◌==ℤ◌, String, ◌==◌, Bool, true,
  false, not, ◌||◌, Option, none, some, if◌then◌else◌, Error, plain, Result, ok, err, ◌>>=◌, ◌>>◌,
  refuse, Method,
}
use ufo_observation_command.Repository.Driver.{Driver, World, in_tx, in_serializable}

pub record TransactionPolicy : Type 0 where
  pub timeout : ℤ
  pub serializable : Bool
  pub retry_attempts : ℤ

unfoldable pub validate : TransactionPolicy → Result (Unit {0})
validate p = do
  refuse (leb_ℤ p.timeout (pos 0)) (plain "transaction timeout must be positive")
  refuse (ltb_ℤ p.retry_attempts (pos 1)) (plain "transaction retry attempts must be positive")
  ok tt

-- `errors.As` with a `PgError`, which gives its code, is a parameter.
unfoldable pub retryable : (Error → Option String) → Error → Bool
retryable code_of e = elim (code_of e) [
  | none ↦ false
  | some code ↦ code == "40001" || code == "40P01"
]

-- `time.Duration(attempt) * 10 * time.Millisecond`.
abbrev pub pause_before : ℕ → ℤ
pause_before attempt = int64 (attempt * 10000000)

-- `pause` is the wait for a timer, which the end of the context stops with its error; other
-- transactions may change the tables meanwhile. The timeout of a transaction's context is one of the
-- reasons for which the driver fails a statement.
module _ {D : Type 0} (sql : Driver D) (code_of : Error → Option String)
    (pause : ℤ → World D → Option Error × World D) (policy : TransactionPolicy) where
  unfoldable pub attempt_once : Method (World D) (Unit {0}) → Method (World D) (Unit {0})
  attempt_once f w = if policy.serializable then in_serializable sql f w else in_tx sql f w

  -- The `select` after an attempt that failed, and the rest of the loop.
  unfoldable pub after_pause :
      Option Error × World D → Method (World D) (Unit {0}) → Result (Unit {0}) × World D
  after_pause (some e, w) next = (err e, w)
  after_pause (none, w) next = next w

  unfoldable pub after_attempt :
      ℕ → Result (Unit {0}) × World D → Method (World D) (Unit {0}) → Result (Unit {0}) × World D
  unfolding retryable after_pause
  after_attempt attempt (ok tt, w) next = (ok tt, w)
  after_attempt attempt (err e, w) next =
      if not (retryable code_of e) || pos attempt ==ℤ policy.retry_attempts
      then (err e, w)
      else after_pause (pause (pause_before attempt) w) next

  -- The loop, with the rounds left.
  unfoldable pub run_attempts : ℕ → ℕ → Method (World D) (Unit {0}) → Method (World D) (Unit {0})
  unfolding attempt_once after_attempt
  run_attempts zero attempt f w = (err (plain "transaction policy exhausted"), w)
  run_attempts (suc rounds) attempt f w =
      after_attempt attempt (attempt_once f w) (λ v. run_attempts rounds (suc attempt) f v)

  unfoldable pub run_with_policy : Method (World D) (Unit {0}) → Method (World D) (Unit {0})
  unfolding validate run_attempts
  run_with_policy f w = elim (validate policy) [
    | err e ↦ (err e, w)
    | ok _ ↦ run_attempts (pos_part policy.retry_attempts) 1 f w
  ]
