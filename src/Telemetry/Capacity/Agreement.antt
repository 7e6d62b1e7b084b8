-- ===== src/Telemetry/Capacity/Agreement.antt =====
-- The capacities of the two packages: the same behaviour under two sets of errors.
use ufo_observation_command.Base.{ℤ, String, ◌≡◌, Dict, string_key, succeeded, arith}
use ufo_observation_command.ArrayOps.Capacity
use ufo_observation_command.Telemetry.Capacity.{reserve}

-- The two `Reserve` grant the same requests and write the same counts.
pub reserve_agrees :
    (key : String) (limit : ℤ) (m : Dict String ℤ)
    → (succeeded (reserve key limit (record { counts = m })).0
        ≡ succeeded (Capacity.reserve key limit (record { used = m })).0)
      × ((reserve key limit (record { counts = m })).1.counts
          ≡ (Capacity.reserve key limit (record { used = m })).1.used)
unfolding reserve Capacity.reserve
reserve_agrees key limit m = (ground arith, ground arith)
