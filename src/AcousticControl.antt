-- ===== src/AcousticControl.antt =====
-- internal/service/acoustic_control.go: the use cases of the acoustic array over one store, one
-- table of capacities and one lease. Every critical section of the store is one step of the state;
-- `ChangeRole` has two of them, so it is given in two parts as well (`change_role_from`).
pub mod History
pub mod Once
pub mod Sessions
mod Tests
use Prim.Native.String.{◌++◌ as ◌⧺◌}
use ufo_observation_command.Base.{
  ℕ, ℤ, String, nul, ◌==◌, Bool, not, ◌||◌, Option, none, some, List, if◌then◌else◌, Dict, Error,
  Result, ok, err, ◌>>=◌, Method,
}
use ufo_observation_command.ArrayOps.Types.{
  CalibrationBundle, Buoy, SurveyMission, Callback, Session, Event, Query, Page,
}
use ufo_observation_command.ArrayOps.Copy.{restore_labels}
use ufo_observation_command.ArrayOps.Policy.{
  conflict_error, unauthorized_error, invalid_error, idempotency_key, calibration_bundle_supports,
  can_dispatch, can_promote, rollback_version, check_generation, can_close_alert, authorize_session,
  rotate_role, classify_error,
}
use ufo_observation_command.ArrayOps.Store.{
  Store, new_store, put_calibration_bundle, calibration_bundle, put_buoy, buoy, put_survey_mission,
  survey_mission, update_survey_mission, record_callback, save_idempotent, idempotent, put_session,
  session, revoke_session, append_event, query_buoys,
}
use ufo_observation_command.ArrayOps.Lease.{Lease, new_lease, acquire, renew, release}
use ufo_observation_command.ArrayOps.Capacity.{Capacity, new_capacity, used, reserve}

pub record AcousticControl : Type 0 where
  pub store : Store
  pub capacity : Capacity
  pub lease : Lease

-- `NewAcousticControl(nil)`.
abbrev pub new_acoustic_control : AcousticControl
new_acoustic_control = record { store = new_store; capacity = new_capacity; lease = new_lease }

-- A method of the store, run on the control's store.
abbrev pub on_store {ℓ} : {A : Type ℓ} → AcousticControl → A × Store → A × AcousticControl
on_store c (a, s) = (a, record c { store = s })

abbrev pub on_lease : AcousticControl → Bool × Lease → Bool × AcousticControl
on_lease c (a, l) = (a, record c { lease = l })

save_at : Result String → List ℕ → Method AcousticControl Bool
save_at (err e) response c = (err e, c)
save_at (ok scope) response c =
    let (saved, s) = save_idempotent scope response c.store in (ok saved, record c { store = s })

unfoldable pub save_idempotent_response :
    String → String → String → String → List ℕ → Method AcousticControl Bool
unfolding save_at
save_idempotent_response tenant_id method path key response c =
    save_at (idempotency_key tenant_id method path key) response c

unfoldable pub load_idempotent_response :
    AcousticControl → String → String → String → String → Result (Option (List ℕ))
load_idempotent_response c tenant_id method path key =
    idempotency_key tenant_id method path key >>= λ scope. ok (idempotent c.store scope)

unfoldable pub register_callback : Callback → Method AcousticControl Bool
register_callback callback c = on_store c (record_callback callback c.store)

-- The two writes of `EnrollBuoy`: a refusal of the second leaves the first in place.
put_both : CalibrationBundle → Buoy → Method Store Unit
put_both bundle b s =
    let (r, s1) = put_calibration_bundle bundle s in
    elim r [ err e ↦ (err e, s1) | ok _ ↦ put_buoy b s1 ]

unfoldable pub enroll_buoy : CalibrationBundle → Buoy → Method AcousticControl Unit
unfolding put_both
enroll_buoy bundle b c = elim (calibration_bundle_supports bundle b) [
  | err e ↦ (err e, c)
  | ok _ ↦ on_store c (put_both bundle b c.store)
]

unfoldable pub approve_survey_mission :
    SurveyMission → CalibrationBundle → Method AcousticControl Unit
approve_survey_mission m bundle c =
    if not (m.tenant_id == bundle.tenant_id)
      || not (m.calibration_bundle_id == bundle.id)
      || not bundle.signed
    then (err (conflict_error "survey_mission calibration_bundle approval is invalid: %w"), c)
    else on_store c (put_survey_mission (record m { approved_digest = bundle.digest }) c.store)

abbrev to_dispatching : SurveyMission → Result SurveyMission
to_dispatching m = can_dispatch m >>= λ _. ok (record m { state = "dispatching" })

unfoldable pub dispatch : String → ℤ → Method AcousticControl Unit
dispatch id expected c = on_store c (update_survey_mission id expected to_dispatching c.store)

abbrev to_promoted : SurveyMission → Result SurveyMission
to_promoted m = can_promote m >>= λ _. ok (record m { state = "promoted" })

unfoldable pub promote : String → ℤ → Method AcousticControl Unit
promote id expected c = on_store c (update_survey_mission id expected to_promoted c.store)

abbrev pub lane_key : String → String → String
lane_key tenant_id lane = tenant_id ⧺ (nul ⧺ lane)

unfoldable pub reserve_lane : String → String → ℤ → Method AcousticControl Unit
reserve_lane tenant_id lane limit c =
    if tenant_id == "" || lane == ""
    then (err (invalid_error "arrayops lane scope is missing: %w"), c)
    else let (r, capacity) = reserve (lane_key tenant_id lane) limit c.capacity in
      (r, record c { capacity = capacity })

unfoldable pub lane_usage : AcousticControl → String → String → ℤ
lane_usage c tenant_id lane = used c.capacity (lane_key tenant_id lane)

unfoldable pub acquire_worker : String → ℤ → ℤ → AcousticControl → Bool × AcousticControl
acquire_worker owner now ttl c = on_lease c (acquire owner now ttl c.lease)

unfoldable pub renew_worker : String → ℤ → ℤ → AcousticControl → Bool × AcousticControl
renew_worker owner now ttl c = on_lease c (renew owner now ttl c.lease)

unfoldable pub release_worker : String → AcousticControl → Bool × AcousticControl
release_worker owner c = on_lease c (release owner c.lease)

unfoldable pub authenticate : String → String → String → ℤ → AcousticControl → Result (Unit {0})
authenticate token tenant_id role now c = elim (session c.store token) [
  | none ↦ err (unauthorized_error "session not found: %w")
  | some x ↦ authorize_session x tenant_id role now
]

-- What `ChangeRole` does with the session that its first critical section has read.
unfoldable pub change_role_from : Option Session → String → Method AcousticControl Unit
change_role_from none next_role c = (err (unauthorized_error "session not found: %w"), c)
change_role_from (some x) next_role c = elim (rotate_role x next_role) [
  | err e ↦ (err e, c)
  | ok next ↦ on_store c (put_session next c.store)
]

unfoldable pub change_role : String → String → Method AcousticControl Unit
unfolding change_role_from
change_role token next_role c = change_role_from (session c.store token) next_role c

unfoldable pub logout : String → ℤ → AcousticControl → Bool × AcousticControl
logout token now c = on_store c (revoke_session token now c.store)

unfoldable pub buoys : Query → AcousticControl → Option (Page Buoy)
buoys query c = query_buoys query c.store

unfoldable pub record_audit : Event → Method AcousticControl Unit
record_audit event c = on_store c (append_event event c.store)

unfoldable pub snapshot_calibration_bundle : AcousticControl → String → Option CalibrationBundle
snapshot_calibration_bundle c id = calibration_bundle c.store id

unfoldable pub snapshot_survey_mission : AcousticControl → String → Option SurveyMission
snapshot_survey_mission c id = survey_mission c.store id

unfoldable pub restore_calibration_bundle_labels : Dict String String → Dict String String
restore_calibration_bundle_labels snapshot = restore_labels snapshot

unfoldable pub error_response : Error → ℕ × String
error_response e = classify_error e

unfoldable pub close_safety_alert : AcousticControl → String → ℤ → Result (Unit {0})
close_safety_alert c id open_alerts = elim (survey_mission c.store id) [
  | none ↦ err (conflict_error "survey_mission not found: %w")
  | some m ↦ can_close_alert m open_alerts
]

unfoldable pub rollback_target : AcousticControl → String → ℤ → Result String
rollback_target c buoy_id expected = elim (buoy c.store buoy_id) [
  | none ↦ err (conflict_error "buoy not found: %w")
  | some b ↦ check_generation b expected >>= λ _. rollback_version b
]
