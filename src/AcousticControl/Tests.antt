-- ===== src/AcousticControl/Tests.antt =====
-- Runs of internal/service/acoustic_control.go at concrete inputs, and the theorems about it there.
use ufo_observation_command.Base.{
  pos, ◌≡◌, ◌≢◌, ◌↔◌, refl, true, false, none, some, List, [], ◌∷◌, get, put, string_key, ok, err,
  eq_iff, arith, inc64, trim_space, join_nul, nul,
}
use ufo_observation_command.ArrayOps.Types.{SurveyMission, Callback, Session}
use ufo_observation_command.ArrayOps.Policy.{
  conflict_error, idempotency_key, callback_key, can_dispatch,
}
use ufo_observation_command.ArrayOps.Store.{
  new_store, session, revoke_session, save_idempotent, record_callback, update_survey_mission,
}
use ufo_observation_command.AcousticControl.{
  AcousticControl, new_acoustic_control, save_idempotent_response, load_idempotent_response,
  register_callback, dispatch, promote, authenticate, logout, change_role_from,
}
use ufo_observation_command.AcousticControl.History.{
  Call, saves, registers, logs_out, changes_role, reserves, run,
}
use ufo_observation_command.AcousticControl.Once.{first_response_wins, callback_once, dispatch_once}
use ufo_observation_command.AcousticControl.Sessions.{
  LetsIn, authenticate_iff, logout_final, logout_lost,
}

saved_first :
    (save_idempotent_response "t" "POST" "/m" "k" (1 ∷ []) new_acoustic_control).0 ≡ ok true
unfolding save_idempotent_response idempotency_key save_idempotent get trim_space join_nul nul
saved_first = refl

abbrev retries : List Call
retries =
    saves "t" "POST" "/m" "k" (2 ∷ [])
    ∷ reserves "t" "lane" (pos 1)
    ∷ saves "t" "POST" "/m" "other" (3 ∷ [])
    ∷ []

first_response_wins_example :
    load_idempotent_response
      (run (save_idempotent_response "t" "POST" "/m" "k" (1 ∷ []) new_acoustic_control).1 retries)
      "t"
      "POST"
      "/m"
      "k"
    ≡ ok (some (1 ∷ []))
first_response_wins_example =
    first_response_wins "t" "POST" "/m" "k" (1 ∷ []) new_acoustic_control retries saved_first

abbrev ping : Callback
ping = record {
  tenant_id = "t";
  buoy_id = "b";
  calibration_bundle_id = "c";
  event_id = "e";
  status = "ok";
  at = pos 1;
}

registered : (register_callback ping new_acoustic_control).0 ≡ ok true
unfolding register_callback record_callback callback_key get trim_space join_nul nul
registered = refl

callback_once_example :
    let d = run (register_callback ping new_acoustic_control).1 (registers ping ∷ retries) in
    register_callback ping d ≡ (ok false, d)
callback_once_example =
    callback_once ping new_acoustic_control (registers ping ∷ retries) registered

abbrev mission : SurveyMission
mission = record {
  id = "m";
  tenant_id = "t";
  calibration_bundle_id = "c";
  state = "running";
  required_healthy = pos 1;
  healthy = pos 1;
  failed = pos 0;
  buoy_ids = "b" ∷ [];
  approved_digest = "d";
  version = pos 4;
}

abbrev running : AcousticControl
running = record new_acoustic_control {
  store = record new_store { survey_missions = ("m", mission) ∷ [] };
}

dispatched : (dispatch "m" (pos 4) running).0 ≡ ok tt
unfolding dispatch update_survey_mission can_dispatch get put inc64
dispatched = refl

dispatch_once_example :
    let d = (dispatch "m" (pos 4) running).1 in
    (m : SurveyMission) × (get running.store.survey_missions "m" ≡ some m)
    × (m.version ≡ pos 4)
    × (m.state ≡ "running")
    × (m.approved_digest ≢ "")
    × (get d.store.survey_missions "m"
        ≡ some (record m { state = "dispatching"; version = inc64 (pos 4) }))
    × (dispatch "m" (pos 4) d ≡ (err (conflict_error "survey_mission version changed: %w"), d))
    × (promote "m" (pos 4) d ≡ (err (conflict_error "survey_mission version changed: %w"), d))
dispatch_once_example = dispatch_once "m" (pos 4) running dispatched

abbrev alice : Session
alice = record {
  token = "tok";
  tenant_id = "t";
  user_id = "alice";
  role = "viewer";
  expires_at = pos 100;
  revoked_at = none;
}

abbrev signed_in : AcousticControl
signed_in = record new_acoustic_control {
  store = record new_store { sessions = ("tok", alice) ∷ [] };
}

authenticate_iff_example : (authenticate "tok" "t" "viewer" (pos 5) signed_in ≡ ok tt) ↔ (
    (x : Session) × (get signed_in.store.sessions "tok" ≡ some x) × LetsIn x "t" "viewer" (pos 5))
authenticate_iff_example = authenticate_iff "tok" "t" "viewer" (pos 5) signed_in

logged_out : (logout "tok" (pos 6) signed_in).0 ≡ true
unfolding logout revoke_session get
logged_out = refl

abbrev afterwards : List Call
afterwards = changes_role "tok" "operator" ∷ logs_out "tok" (pos 8) ∷ []

logout_final_example :
    authenticate "tok" "t" "operator" (pos 9) (run (logout "tok" (pos 6) signed_in).1 afterwards)
    ≢ ok tt
logout_final_example =
    logout_final "tok" (pos 6) signed_in afterwards "t" "operator" (pos 9) (refl, tt) logged_out
      (tt, (tt, tt))

found : get signed_in.store.sessions "tok" ≡ some alice
unfolding get
found = refl

logout_lost_example :
    let seen = session signed_in.store "tok" in
    let (done, d) = logout "tok" (pos 6) signed_in in
    (done ≡ true)
    × (authenticate "tok" "t" "operator" (pos 9) (change_role_from seen "operator" d).1 ≡ ok tt)
logout_lost_example =
    logout_lost alice "operator" (pos 6) (pos 9) signed_in found refl
      (ground (arith, eq_iff "tok" "")) (ground (arith, eq_iff "t" ""))
      (ground (arith, eq_iff "alice" "")) (ground (arith, eq_iff "operator" ""))
      (ground (arith, eq_iff "operator" "viewer")) (omega arith)
