-- ===== src/Service/Checks.antt =====
-- internal/service/validation.go, and the checks of the buoys in service.go.
use Prim.Native.Char.{code}
use ufo_observation_command.Base.{
  ℕ, ◌+◌, ltb, pos, String, ◌==◌, trim_space, List, [], ◌∷◌, any, if◌then◌else◌, Result, ok, err,
  ◌>>◌, refuse,
}
use ufo_observation_command.Domain.Errors.{conflict_error}
use ufo_observation_command.Domain.Validation.{validate_buoy, validate_business_code}
use ufo_observation_command.Repository.Types.{AcousticBuoyInput}

-- `len(s)`: the bytes of a text in UTF-8.
unfoldable pub byte_length : String → ℕ
byte_length String.[] = 0
byte_length (String.◌∷◌ c s) =
    (if ltb (code c) 0x80
      then 1
      else if ltb (code c) 0x800
      then 2
      else if ltb (code c) 0x10000
      then 3
      else 4)
    + byte_length s

unfoldable pub validate_code : String → Result (Unit {0})
unfolding byte_length
validate_code value = do
  refuse (trim_space value == "") (conflict_error "%s is required: %w")
  refuse (ltb 80 (byte_length (trim_space value))) (conflict_error "%s is too long: %w")
  ok tt

-- The loop of `validateIDs`, over the identifiers that were seen.
unfoldable pub validate_ids_from : List String → List String → Result (Unit {0})
unfolding validate_code
validate_ids_from seen [] = ok tt
validate_ids_from seen (id ∷ ids) =
    let rest : Result (Unit {0}) = validate_ids_from (id ∷ seen) ids in
    validate_code id
    >> (if any (λ s. s == id) seen then err (conflict_error "duplicate id %s: %w") else rest)

unfoldable pub validate_ids : List String → Result (Unit {0})
unfolding validate_ids_from
validate_ids ids = validate_ids_from [] ids

-- The loop over the buoys of a request, over the codes that were seen.
unfoldable pub check_buoys : List String → List AcousticBuoyInput → Result (Unit {0})
unfolding validate_buoy validate_business_code
check_buoys seen [] = ok tt
check_buoys seen (b ∷ buoys) =
    let rest : Result (Unit {0}) = check_buoys (b.code ∷ seen) buoys in
    validate_buoy record {
      id = "";
      survey_mission_id = "";
      code = b.code;
      arrayops_lane = b.arrayops_lane;
      required_successes = b.required_successes;
      completed = pos 0;
    }
    >> validate_business_code b.code
    >> (if any (λ s. s == b.code) seen
        then err (conflict_error "duplicate acoustic_buoy code %s: %w")
        else rest)
