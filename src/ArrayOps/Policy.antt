-- ===== src/ArrayOps/Policy.antt =====
-- internal/arrayops/policy.go, security.go and errors.go: keys, guards and the classification of
-- errors for responses.
use Prim.Native.String.{◌++◌ as ◌⧺◌}
use ufo_observation_command.Base.{
  ℤ, pos, ltb_ℤ, leb_ℤ, ◌==ℤ◌, String, ◌==◌, trim_space, not, ◌||◌, Option, none, some, List, [],
  ◌∷◌, any, if◌then◌else◌, is_some, Error, sentinel, wrap, is, as_signature, Result, ok, err, ◌>>◌,
  refuse, arrayops_conflict, arrayops_unauthorized, arrayops_unavailable, arrayops_invalid,
  join_nul, ℕ,
}
use ufo_observation_command.ArrayOps.Types.{
  CalibrationBundle, SurveyMission, Callback, Buoy, Session,
}

abbrev pub conflict_error : String → Error
conflict_error msg = wrap msg (sentinel arrayops_conflict)

abbrev pub unauthorized_error : String → Error
unauthorized_error msg = wrap msg (sentinel arrayops_unauthorized)

abbrev pub invalid_error : String → Error
invalid_error msg = wrap msg (sentinel arrayops_invalid)

unfoldable pub idempotency_key : String → String → String → String → Result String
idempotency_key tenant_id method path key =
    let values : List String = tenant_id ∷ method ∷ path ∷ key ∷ [] in
    if any (λ value. trim_space value == "") values
    then err (invalid_error "idempotency scope is incomplete: %w")
    else ok (join_nul values)

unfoldable pub callback_key : Callback → Result String
callback_key c =
    if c.tenant_id == "" || c.buoy_id == "" || c.calibration_bundle_id == "" || c.event_id == ""
    then err (invalid_error "callback identity is incomplete: %w")
    else ok (join_nul (c.tenant_id ∷ c.buoy_id ∷ c.calibration_bundle_id ∷ c.event_id ∷ []))

-- The arguments of a `%s` stand outside the text that is kept of an error.
unfoldable pub calibration_bundle_supports : CalibrationBundle → Buoy → Result (Unit {0})
calibration_bundle_supports bundle buoy = do
  refuse (not (bundle.tenant_id == buoy.tenant_id))
      (conflict_error "calibration_bundle and buoy tenants differ: %w")
  refuse (not bundle.signed || bundle.digest == "")
      (conflict_error "calibration_bundle signature is not verified: %w")
  refuse (not (any (λ class. class == buoy.class) bundle.buoy_classes))
      (conflict_error "calibration_bundle does not support buoy class %s: %w")
  ok tt

unfoldable pub can_dispatch : SurveyMission → Result (Unit {0})
can_dispatch mission = do
  refuse (not (mission.state == "running"))
      (conflict_error "survey_mission %s cannot dispatch from %s: %w")
  refuse (mission.approved_digest == "")
      (conflict_error "survey_mission %s has no approved calibration_bundle digest: %w")
  ok tt

unfoldable pub can_promote : SurveyMission → Result (Unit {0})
can_promote mission = do
  refuse (not (mission.state == "running")) (conflict_error "survey_mission %s is not running: %w")
  refuse (ltb_ℤ (pos 0) mission.failed || ltb_ℤ mission.healthy mission.required_healthy)
      (conflict_error "pilot_dive health gate is not satisfied: %w")
  ok tt

unfoldable pub rollback_version : Buoy → Result String
rollback_version buoy =
    if buoy.previous_version == "" || buoy.previous_version == buoy.current_version
    then err (conflict_error "buoy %s has no rollback target: %w")
    else ok buoy.previous_version

unfoldable pub check_generation : Buoy → ℤ → Result (Unit {0})
check_generation buoy expected =
    refuse (leb_ℤ expected (pos 0) || not (buoy.generation ==ℤ expected))
      (conflict_error "buoy generation changed: %w")

unfoldable pub can_close_alert : SurveyMission → ℤ → Result (Unit {0})
can_close_alert mission open_alerts = do
  refuse (ltb_ℤ open_alerts (pos 0)) (invalid_error "open alert count is invalid: %w")
  refuse (ltb_ℤ (pos 0) open_alerts || mission.state == "rolling_back")
      (conflict_error "survey_mission still has unresolved safety work: %w")
  ok tt

unfoldable pub authorize_session : Session → String → String → ℤ → Result (Unit {0})
authorize_session session tenant_id required_role now = do
  refuse (session.token == "" || not (session.tenant_id == tenant_id))
      (unauthorized_error "session tenant does not match: %w")
  refuse (is_some session.revoked_at || not (ltb_ℤ now session.expires_at))
      (unauthorized_error "session is no longer active: %w")
  refuse (not (session.role == required_role))
      (unauthorized_error "session role cannot perform operation: %w")
  ok tt

unfoldable pub rotate_role : Session → String → Result Session
rotate_role session next_role =
    if next_role == "" || next_role == session.role
    then err (conflict_error "new role is invalid: %w")
    else ok (record session { role = next_role })

unfoldable pub classify_error : Error → ℕ × String
classify_error e =
    if as_signature e
    then (422, "signature_invalid")
    else if is e arrayops_unauthorized
    then (403, "forbidden")
    else if is e arrayops_conflict
    then (409, "conflict")
    else if is e arrayops_invalid
    then (400, "invalid_request")
    else if is e arrayops_unavailable
    then (503, "unavailable")
    else (500, "internal_error")

unfoldable pub wrap_operation : String → Option Error → Option Error
wrap_operation operation none = none
wrap_operation operation (some e) = some (wrap (operation ⧺ " failed: %w") e)
