-- ===== src/Telemetry/Types.antt =====
-- internal/telemetry/types.go: the records of the package and its errors.
use ufo_observation_command.Base.{
  ℕ, ℤ, String, List, Dict, Error, sentinel, wrap, telemetry_conflict, telemetry_invalid,
  telemetry_unavailable,
}

pub record Scope : Type 0 where
  pub tenant_id : String
  pub mission_id : String
  pub buoy_id : String
  pub capture_id : String

pub record Segment : Type 0 where
  pub index : ℤ
  pub digest : String
  pub payload : List ℕ

pub record Stream : Type 0 where
  pub key : String
  pub scope : Scope
  pub expected_segments : ℤ
  pub segments : Dict ℤ Segment
  pub labels : Dict String String
  pub state : String
  pub version : ℤ

pub record Record : Type 0 where
  pub stream_key : String
  pub checksum : String
  pub payload : List ℕ
  pub sealed_at : ℤ

abbrev pub conflict_error : String → Error
conflict_error msg = wrap msg (sentinel telemetry_conflict)

abbrev pub invalid_error : String → Error
invalid_error msg = wrap msg (sentinel telemetry_invalid)

abbrev pub unavailable_error : String → Error
unavailable_error msg = wrap msg (sentinel telemetry_unavailable)
