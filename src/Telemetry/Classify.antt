-- ===== src/Telemetry/Classify.antt =====
-- internal/telemetry/runtime.go: decoding through a decoder that may fail or panic, and the
-- classification of errors.
use Prim.Native.String.{◌++◌ as ◌⧺◌}
use ufo_observation_command.Base.{
  ℕ, String, Option, none, some, List, if◌then◌else◌, Error, wrap, plain, decode_error, is,
  as_decode, Result, ok, err, telemetry_conflict, telemetry_invalid, telemetry_unavailable,
  telemetry_unauthorized,
}
use ufo_observation_command.Telemetry.Types.{unavailable_error}

-- What a decoder does with a payload.
pub data Decoded : Type 0 where
  output : List ℕ → Decoded
  failed : Error → Decoded
  panicked : Decoded

outcome : String → Decoded → Result (List ℕ)
outcome codec (output bytes) = ok bytes
outcome codec (failed cause) = err (decode_error codec cause)
outcome codec panicked = err (decode_error codec (plain "decoder panic: %v"))

-- A nil decoder is `none`.
unfoldable pub decode : Option (List ℕ → Decoded) → String → List ℕ → Result (List ℕ)
unfolding outcome
decode none codec payload = err (unavailable_error "decoder is unavailable: %w")
decode (some decoder) codec payload = outcome codec (decoder payload)

unfoldable pub classify : Error → ℕ × String
classify e =
    if as_decode e
    then (422, "decode_failed")
    else if is e telemetry_unauthorized
    then (403, "forbidden")
    else if is e telemetry_conflict
    then (409, "conflict")
    else if is e telemetry_invalid
    then (400, "invalid_request")
    else if is e telemetry_unavailable
    then (503, "unavailable")
    else (500, "internal_error")

-- `fmt.Errorf("%s: %w", operation, err)`.
unfoldable pub wrap_error : String → Option Error → Option Error
wrap_error operation none = none
wrap_error operation (some e) = some (wrap (operation ⧺ ": %w") e)
