-- ===== src/Telemetry/Capacity.antt =====
-- internal/telemetry/coordination.go, `Capacity`: counters of reservations by key.
pub mod Agreement
use ufo_observation_command.Base.{
  ℤ, pos, leb_ℤ, inc64, String, ◌==◌, ◌||◌, none, some, [], if◌then◌else◌, Dict, get, put,
  string_key, ok, err, Method,
}
use ufo_observation_command.Telemetry.Types.{conflict_error, invalid_error}

pub record Capacity : Type 0 where
  pub counts : Dict String ℤ

abbrev pub new_capacity : Capacity
new_capacity = record { counts = [] }

unfoldable pub used : Capacity → String → ℤ
used c key = elim (get c.counts key) [ none ↦ pos 0 | some n ↦ n ]

unfoldable pub reserve : String → ℤ → Method Capacity Unit
unfolding used
reserve key limit c =
    if key == "" || leb_ℤ limit (pos 0)
    then (err (invalid_error "capacity scope is invalid: %w"), c)
    else if leb_ℤ limit (used c key)
    then (err (conflict_error "capacity exhausted: %w"), c)
    else (ok tt, record c { counts = put c.counts key (inc64 (used c key)) })
