-- ===== src/Worker/Outcome.antt =====
-- internal/worker/outcome.go: the log of what became of jobs. An outcome is a Go string.
pub mod Counts
use ufo_observation_command.Base.{
  ℕ, ℤ, pos, inc64, String, ◌==◌, List, [], ◌∷◌, ◌++◌, if◌then◌else◌,
}

pub record OutcomeRecord : Type 0 where
  pub job_id : String
  pub outcome : String
  pub attempts : ℤ
  pub error : String
  pub at : ℤ

pub record OutcomeLog : Type 0 where
  pub records : List OutcomeRecord

unfoldable pub append : OutcomeRecord → OutcomeLog → OutcomeLog
append r l = record { records = l.records ++ r ∷ [] }

unfoldable pub list : OutcomeLog → List OutcomeRecord
list l = l.records

-- The loop, with the count so far.
unfoldable pub count_from : String → ℤ → List OutcomeRecord → ℤ
count_from outcome count [] = count
count_from outcome count (r ∷ rest) =
    count_from outcome (if r.outcome == outcome then inc64 count else count) rest

unfoldable pub count : OutcomeLog → String → ℤ
unfolding count_from
count l outcome = count_from outcome (pos 0) l.records
