-- ===== src/TelemetryControl/Tests.antt =====
-- The theorem about the control of telemetry at a concrete stream.
use ufo_observation_command.Base.{
  ℕ, pos, String, ◌≡◌, refl, none, some, List, [], ◌∷◌, length, get, put, copy, string_key, int_key,
  if◌then◌else◌, ◌==ℕ◌, trim_space, join_nul, inc64,
}
use ufo_observation_command.Telemetry.Broadcast.{subscribe, publish}
use ufo_observation_command.Telemetry.Types.{Scope, Stream, Record}
use ufo_observation_command.Telemetry.Stream.{
  Manager, new_manager, stream_key, open_stream, append, finalize, concat_payloads, assemble,
  sort_ints,
}
use ufo_observation_command.Telemetry.Stream.Assembly.{indices}
use ufo_observation_command.Telemetry.Stream.Invariant.{new_manager-IsValid}
use ufo_observation_command.Telemetry.Stream.History as Streams
use ufo_observation_command.TelemetryControl.{
  TelemetryControl, new_telemetry_control, finalize_stream,
}
use ufo_observation_command.TelemetryControl.Parts.{
  Call, stream_call, reserves, acquires, bus_action, calls, finalized_stays,
}

abbrev hash : List ℕ → String
hash bytes = if length bytes ==ℕ 2 then "two" else "other"

abbrev scope : Scope
scope = record { tenant_id = "t"; mission_id = "m"; buoy_id = "b"; capture_id = "c" }

abbrev filled : Manager
filled = Streams.run hash new_manager (
    Streams.opens scope (pos 1) []
    ∷ Streams.appends none "t\0m\0b\0c" (pos 0) "d0" (1 ∷ 2 ∷ [])
    ∷ [])

abbrev control : TelemetryControl
control = new_telemetry_control (some filled)

abbrev others : List Call
others =
    acquires "a" (pos 1) (pos 5)
    ∷ stream_call (Streams.appends none "t\0m\0b\0c" (pos 0) "d1" (3 ∷ []))
    ∷ bus_action (subscribe 1)
    ∷ reserves "lane" (pos 2)
    ∷ bus_action (publish (7 ∷ []) (0 ∷ []))
    ∷ []

abbrev outcome : Record
outcome = record {
  stream_key = "t\0m\0b\0c";
  checksum = "two";
  payload = 1 ∷ 2 ∷ [];
  sealed_at = pos 7;
}

finalized_stays_example :
    (s : Stream) × (get
        (calls hash others
          (finalize_stream hash none "t\0m\0b\0c"
            (pos 2)
            "two"
            none
            (pos 7)
            control).1).manager.streams
        "t\0m\0b\0c"
      ≡ some s)
    × (s.state ≡ "sealed")
    × (outcome.payload ≡ concat_payloads s.segments (indices 0 (length s.segments)))
    × (outcome.checksum ≡ hash outcome.payload)
unfolding new_telemetry_control finalize_stream Streams.run open_stream append finalize stream_key
    trim_space join_nul get put copy inc64 assemble sort_ints
finalized_stays_example =
    finalized_stays hash none "t\0m\0b\0c" (pos 2) "two" none (pos 7) control outcome others
      (Streams.run-IsValid hash new_manager
        (Streams.opens scope (pos 1) []
          ∷ Streams.appends none "t\0m\0b\0c" (pos 0) "d0" (1 ∷ 2 ∷ [])
          ∷ [])
        new_manager-IsValid)
      refl
