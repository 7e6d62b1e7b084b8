-- ===== src/Worker/Metrics.antt =====
-- internal/worker/metrics.go and health.go: the counters of a worker and the times of its last runs.
use ufo_observation_command.Base.{
  ℤ, pos, ltb_ℤ, add64, sub_time, Bool, true, false, not, Option, none, some, if◌then◌else◌, Error,
  sentinel, canceled, deadline_exceeded,
}

pub record Metrics : Type 0 where
  pub runs : ℤ
  pub failures : ℤ
  pub due : ℤ

unfoldable pub record_run : Metrics → Metrics
record_run m = record m { runs = add64 m.runs (pos 1) }

unfoldable pub record_failure : Metrics → Metrics
record_failure m = record m { failures = add64 m.failures (pos 1) }

unfoldable pub record_due : ℤ → Metrics → Metrics
record_due count m = record m { due = add64 m.due count }

-- Times are in nanoseconds since 1970, as `UnixNano` gives them.
pub record Health : Type 0 where
  pub running : Bool
  pub last_run : ℤ
  pub last_error : ℤ

unfoldable pub start : Health → Health
start h = record h { running = true }

unfoldable pub stop : Health → Health
stop h = record h { running = false }

unfoldable pub record_health_run : ℤ → Health → Health
record_health_run now h = record h { last_run = now }

unfoldable pub record_health_error : ℤ → Health → Health
record_health_error now h = record h { last_error = now }

-- `time.Unix(0, n).IsZero()` is a test for the year 1, which no count of nanoseconds reaches.
unfoldable pub check_health : Health → ℤ → ℤ → Option Error
check_health h stale_after now =
    if not h.running
    then some (sentinel canceled)
    else if ltb_ℤ stale_after (sub_time now h.last_run)
    then some (sentinel deadline_exceeded)
    else none
