-- ===== src/TelemetryControl.antt =====
-- internal/service/telemetry_control.go: the use cases over one manager of streams, one table of
-- capacities, one fenced lease and one broadcaster.
pub mod Parts
mod Tests
use ufo_observation_command.Base.{
  ℕ, ℤ, String, Bool, Option, none, some, List, [], ◌∷◌, Dict, Error, Result, ok, err, Method,
}
use ufo_observation_command.Telemetry.Types.{Scope, Stream, Record}
use ufo_observation_command.Telemetry.Stream.{
  Manager, new_manager, open_stream, append, snapshot, finalize,
}
use ufo_observation_command.Telemetry.Capacity.{Capacity, new_capacity, reserve, used}
use ufo_observation_command.Telemetry.Lease.{FenceLease, new_fence_lease, acquire, commit}
use ufo_observation_command.Telemetry.Classify.{Decoded, decode, classify, wrap_error}
use ufo_observation_command.Telemetry.Broadcast.{Broadcaster, new_broadcaster, Action, step}

pub record TelemetryControl : Type 0 where
  pub manager : Manager
  pub capacity : Capacity
  pub lease : FenceLease
  pub bus : Broadcaster

-- A nil manager is `none`.
unfoldable pub new_telemetry_control : Option Manager → TelemetryControl
new_telemetry_control given = record {
  manager = elim given [ none ↦ new_manager | some m ↦ m ];
  capacity = new_capacity;
  lease = new_fence_lease;
  bus = new_broadcaster;
}

-- A method of a part, as one of the control.
abbrev pub on_manager :
    {A : Type 0} → Result A × Manager → TelemetryControl → Result A × TelemetryControl
on_manager r c = (r.0, record c { manager = r.1 })

unfoldable pub open_telemetry : Scope → ℤ → Dict String String → Method TelemetryControl Stream
open_telemetry scope expected labels c = on_manager (open_stream scope expected labels c.manager) c

unfoldable pub append_segment :
    Option Error → String → ℤ → String → List ℕ → Method TelemetryControl Bool
append_segment ctx_err key index digest payload c =
    on_manager (append ctx_err key index digest payload c.manager) c

unfoldable pub snapshot_stream : TelemetryControl → String → Option Stream
snapshot_stream c key = snapshot c.manager key

unfoldable pub finalize_stream :
    (List ℕ → String)
    → Option Error
    → String
    → ℤ
    → String
    → Option (Record → Option Error)
    → ℤ
    → Method TelemetryControl Record
finalize_stream digest_hex ctx_err key version checksum audit now c =
    on_manager (finalize digest_hex ctx_err key version checksum audit now c.manager) c

-- `Decode`, under the error of the derived context when it begins.
unfoldable pub decode_payload :
    Option Error → Option (List ℕ → Decoded) → String → List ℕ → Result (List ℕ)
decode_payload (some e) decoder codec payload = err e
decode_payload none decoder codec payload = decode decoder codec payload

unfoldable pub reserve_channel : String → ℤ → Method TelemetryControl (Unit {0})
reserve_channel scope limit c =
    let r : Result (Unit {0}) × Capacity = reserve scope limit c.capacity in
    (r.0, record c { capacity = r.1 })

unfoldable pub channel_usage : TelemetryControl → String → ℤ
channel_usage c scope = used c.capacity scope

unfoldable pub acquire_worker : String → ℤ → ℤ → TelemetryControl → Option ℕ × TelemetryControl
acquire_worker owner now ttl c =
    let r : Option ℕ × FenceLease = acquire owner now ttl c.lease in (r.0, record c { lease = r.1 })

unfoldable pub commit_worker : TelemetryControl → String → ℕ → ℤ → Bool
commit_worker c owner token now = commit c.lease owner token now

-- Of `nil` the class is the one of no error, 500.
unfoldable pub wrap_and_classify : String → Error → ℕ × String
wrap_and_classify operation e = elim (wrap_error operation (some e)) [
  | none ↦ (500, "internal_error")
  | some wrapped ↦ classify wrapped
]

-- An action of the broadcaster, as Subscribe and Publish are made of; `none` where it has to wait.
unfoldable pub on_bus : Action → TelemetryControl → Option TelemetryControl
on_bus action c = elim (step action c.bus) [
  | none ↦ none
  | some bus ↦ some (record c { bus = bus })
]
