-- ===== src/Domain/Validation.antt =====
-- internal/domain/validation.go, plan.go, intervention.go and recovery_job_rules.go: checks of codes,
-- of buoys, of reports, of incidents and of activations. `codePattern` is written out as a test.
use Prim.Native.Char.{Char, code}
use ufo_observation_command.Base.Floats.{is_nan, is_inf, is_negative}
use ufo_observation_command.Base.{
  ℕ, zero, suc, leb, ◌==ℕ◌, ℤ, pos, ltb_ℤ, ◌==ℤ◌, ◌+ℤ◌, ◌-ℤ◌, String, ◌==◌, trim_space, Bool, false,
  not, ◌&&◌, ◌||◌, is_some, Option, Result, ok, ◌>>◌, refuse,
}
use ufo_observation_command.Domain.Errors.{conflict_error}

-- `[A-Z0-9]` and `[A-Z0-9_-]`.
unfoldable pub is_code_start : Char → Bool
is_code_start c = (leb 65 (code c) && leb (code c) 90) || (leb 48 (code c) && leb (code c) 57)

unfoldable pub is_code_part : Char → Bool
unfolding is_code_start
is_code_part c = is_code_start c || code c ==ℕ 95 || code c ==ℕ 45

-- Between `least` and `most` characters that are parts of a code, and then the end.
unfoldable pub code_parts : ℕ → ℕ → String → Bool
unfolding is_code_part
code_parts least most String.[] = least ==ℕ 0
code_parts least zero (String.◌∷◌ c s) = false
code_parts zero (suc most) (String.◌∷◌ c s) = is_code_part c && code_parts zero most s
code_parts (suc least) (suc most) (String.◌∷◌ c s) = is_code_part c && code_parts least most s

unfoldable pub code_pattern : String → Bool
unfolding is_code_start code_parts
code_pattern String.[] = false
code_pattern (String.◌∷◌ c s) = is_code_start c && code_parts 2 31 s

unfoldable pub validate_business_code : String → Result (Unit {0})
unfolding code_pattern
validate_business_code value =
    refuse (not (code_pattern (trim_space value)))
      (conflict_error "business code %q is invalid: %w")

unfoldable pub validate_signal_recovery_report : ℕ → ℕ → String → Result (Unit {0})
validate_signal_recovery_report risk_score alert_threshold scale = do
  refuse
      (is_nan risk_score
        || is_nan alert_threshold
        || is_inf risk_score
        || is_inf alert_threshold
        || is_negative risk_score
        || is_negative alert_threshold)
      (conflict_error "signal_recovery_report scores cannot be negative: %w")
  refuse (trim_space scale == "") (conflict_error "signal_recovery_report scale is required: %w")
  ok tt

unfoldable pub validate_positive_version : ℤ → Result (Unit {0})
validate_positive_version version =
    refuse (ltb_ℤ version (pos 1)) (conflict_error "version must be positive: %w")

unfoldable pub validate_page : ℤ → ℤ → Result (Unit {0})
validate_page offset limit =
    refuse (ltb_ℤ offset (pos 0) || ltb_ℤ limit (pos 1) || ltb_ℤ (pos 100) limit)
      (conflict_error "page bounds are invalid: %w")

-- A buoy, as plan.go has it and as a row of the table `acoustic_buoys`.
pub record AcousticBuoy : Type 0 where
  pub id : String
  pub survey_mission_id : String
  pub code : String
  pub arrayops_lane : String
  pub required_successes : ℤ
  pub completed : ℤ

unfoldable pub validate_buoy : AcousticBuoy → Result (Unit {0})
validate_buoy s = do
  refuse (trim_space s.code == "" || trim_space s.arrayops_lane == "")
      (conflict_error "acoustic_buoy code and arrayops_lane are required: %w")
  refuse (ltb_ℤ s.required_successes (pos 1))
      (conflict_error "acoustic_buoy requires at least one task: %w")
  refuse (ltb_ℤ s.completed (pos 0) || ltb_ℤ s.required_successes s.completed)
      (conflict_error "acoustic_buoy completed task count is invalid: %w")
  ok tt

pub record IntegrityIncident : Type 0 where
  pub id : String
  pub recovery_job_id : String
  pub kind : String
  pub status : String
  pub reason : String
  pub due_at : ℤ
  pub closed_at : Option ℤ

unfoldable pub validate_incident : IntegrityIncident → ℤ → Result (Unit {0})
validate_incident d now = do
  refuse (d.recovery_job_id == "" || trim_space d.kind == "" || trim_space d.reason == "")
      (conflict_error "safety_alert fields are required: %w")
  refuse
      (not (d.kind == "reassess")
        && not (d.kind == "repeat_acoustic_buoy")
        && not (d.kind == "safety_adjustment")
        && not (d.kind == "close_record"))
      (conflict_error "safety_alert kind is invalid: %w")
  refuse (ltb_ℤ d.due_at (now -ℤ pos (86400000000000)))
      (conflict_error "safety_alert due time is too old: %w")
  refuse (d.status == "closed" && not (is_some d.closed_at))
      (conflict_error "closed safety_alert needs closed_at: %w")
  ok tt

unfoldable pub is_due : IntegrityIncident → ℤ → Bool
is_due d now = not (d.status == "closed") && not (ltb_ℤ now d.due_at)

-- Its `From` is read by no check. `wall` is `time.Now().UTC()`.
pub record Activation : Type 0 where
  pub recovery_job_id : String
  pub to_operator : String
  pub location : String
  pub recorded_at : ℤ

unfoldable pub validate_activation : Activation → ℤ → Result (Unit {0})
validate_activation c wall = do
  refuse
      (trim_space c.recovery_job_id == ""
        || trim_space c.to_operator == ""
        || trim_space c.location == "")
      (conflict_error "activation task, receiver and location are required: %w")
  refuse (not (c.recorded_at ==ℤ pos 0) && ltb_ℤ (wall +ℤ pos 300000000000) c.recorded_at)
      (conflict_error "activation timestamp is in the future: %w")
  ok tt
