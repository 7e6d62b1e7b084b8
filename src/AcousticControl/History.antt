-- ===== src/AcousticControl/History.antt =====
-- Sequences of calls of the acoustic control, each one made of whole critical sections.
use mathlib.Core.List.{append-nil, append_assoc}
use ufo_observation_command.Base.{
  ℕ, ℤ, String, ◌≡◌, sym, ap, ◌∙◌, some, List, [], ◌∷◌, ◌++◌, get, get-put, string_key, eq_iff,
  arith, Bool-cases, Result-cases, succeeded, inl, inr,
}
use ufo_observation_command.ArrayOps.Types.{
  CalibrationBundle, Buoy, SurveyMission, Callback, Session, Event,
}
use ufo_observation_command.ArrayOps.Policy.{idempotency_key, callback_key}
use ufo_observation_command.ArrayOps.Store.{
  Store, put_calibration_bundle, put_buoy, put_survey_mission, update_survey_mission,
  record_callback, save_idempotent, put_session, revoke_session, append_event,
}
use ufo_observation_command.AcousticControl.{
  AcousticControl, save_idempotent_response, register_callback, enroll_buoy, approve_survey_mission,
  dispatch, promote, reserve_lane, acquire_worker, renew_worker, release_worker, change_role,
  logout, record_audit, on_store,
}

-- `puts_session` is the call of `PutSession` on the store that `Store()` gives out.
pub data Call : Type 0 where
  saves : String → String → String → String → List ℕ → Call
  registers : Callback → Call
  enrolls : CalibrationBundle → Buoy → Call
  approves : SurveyMission → CalibrationBundle → Call
  dispatches promotes : String → ℤ → Call
  reserves : String → String → ℤ → Call
  acquires renews : String → ℤ → ℤ → Call
  releases : String → Call
  changes_role : String → String → Call
  logs_out : String → ℤ → Call
  puts_session : Session → Call
  records : Event → Call

unfoldable pub step : AcousticControl → Call → AcousticControl
unfolding save_idempotent_response register_callback enroll_buoy approve_survey_mission dispatch
    promote reserve_lane acquire_worker renew_worker release_worker change_role logout record_audit
    put_calibration_bundle put_buoy put_survey_mission update_survey_mission record_callback
    put_session revoke_session append_event save_idempotent
step c (saves tenant_id method path key response) =
    (save_idempotent_response tenant_id method path key response c).1
step c (registers callback) = (register_callback callback c).1
step c (enrolls bundle b) = (enroll_buoy bundle b c).1
step c (approves m bundle) = (approve_survey_mission m bundle c).1
step c (dispatches id version) = (dispatch id version c).1
step c (promotes id version) = (promote id version c).1
step c (reserves tenant_id lane limit) = (reserve_lane tenant_id lane limit c).1
step c (acquires owner now ttl) = (acquire_worker owner now ttl c).1
step c (renews owner now ttl) = (renew_worker owner now ttl c).1
step c (releases owner) = (release_worker owner c).1
step c (changes_role token role) = (change_role token role c).1
step c (logs_out token now) = (logout token now c).1
step c (puts_session x) = (on_store c (put_session x c.store)).1
step c (records e) = (record_audit e c).1

unfoldable pub run : AcousticControl → List Call → AcousticControl
unfolding step
run c [] = c
run c (x ∷ xs) = run (step c x) xs

-- A property of the control that every call keeps holds after any calls.
pub run_keeps {ℓ} :
    (P : AcousticControl → Type ℓ) (c : AcousticControl) (cs : List Call)
    → ((d : AcousticControl) (x : Call) → P d → P (step d x))
    → P c
    → P (run c cs)
unfolding run
run_keeps P c [] f h = h
run_keeps P c (x ∷ xs) f h = run_keeps P (step c x) xs f (f c x h)

-- A response that is stored stays.
save_kept :
    (scope key : String) (body response : List ℕ) (s : Store)
    → get s.idempotency key ≡ some body
    → get (save_idempotent scope response s).1.idempotency key ≡ some body
unfolding save_idempotent
save_kept scope key body response s h =
    ground (arith, get-put s.idempotency scope response key, eq_iff scope key)

step_idempotency :
    (key : String) (body : List ℕ) (c : AcousticControl) (x : Call)
    → get c.store.idempotency key ≡ some body
    → get (step c x).store.idempotency key ≡ some body
unfolding step
step_idempotency key body c (saves t m p k response) h =
    elim (Result-cases (idempotency_key t m p k)) [
      | inl (e, q) ↦ ground arith
      | inr (scope, q) ↦ ground (arith, save_kept scope key body response c.store h)
    ]
step_idempotency key body c _ h = ground arith

pub run_idempotency :
    (key : String) (body : List ℕ) (c : AcousticControl) (cs : List Call)
    → get c.store.idempotency key ≡ some body
    → get (run c cs).store.idempotency key ≡ some body
run_idempotency key body c cs h =
    run_keeps (λ d. get d.store.idempotency key ≡ some body) c cs (step_idempotency key body) h

-- A callback that is registered stays.
record_kept :
    (callback : Callback) (key : String) (seen : Callback) (s : Store)
    → get s.callbacks key ≡ some seen
    → get (record_callback callback s).1.callbacks key ≡ some seen
unfolding record_callback
record_kept callback key seen s h = elim (Result-cases (callback_key callback)) [
  | inl (e, q) ↦ ground arith
  | inr (k, q) ↦ ground (arith, get-put s.callbacks k callback key, eq_iff k key)
]

step_callbacks :
    (key : String) (seen : Callback) (c : AcousticControl) (x : Call)
    → get c.store.callbacks key ≡ some seen
    → get (step c x).store.callbacks key ≡ some seen
unfolding step
step_callbacks key seen c (saves t m p k response) h = ground arith
step_callbacks key seen c (registers callback) h = record_kept callback key seen c.store h
step_callbacks key seen c _ h = ground arith

pub run_callbacks :
    (key : String) (seen : Callback) (c : AcousticControl) (cs : List Call)
    → get c.store.callbacks key ≡ some seen
    → get (run c cs).store.callbacks key ≡ some seen
run_callbacks key seen c cs h =
    run_keeps (λ d. get d.store.callbacks key ≡ some seen) c cs (step_callbacks key seen) h

-- The audit log only grows at its end.
abbrev pub Grows : List Event → List Event → Type 0
Grows before after = (rest : List Event) × (after ≡ before ++ rest)

step_events : (c : AcousticControl) (x : Call) → Grows c.store.events (step c x).store.events
unfolding step
step_events c (records e) = elim (Bool-cases (succeeded (append_event e c.store).0)) [
  | inl t ↦ (e ∷ [], ground arith)
  | inr t ↦ ([], ground (arith, append-nil c.store.events))
]
step_events c _ = ([], ground (arith, append-nil c.store.events))

-- Whatever is called, the events of the audit log stay in their order, and new ones follow them.
pub run_events :
    (c : AcousticControl) (cs : List Call) → Grows c.store.events (run c cs).store.events
run_events c cs =
    run_keeps (λ d. Grows c.store.events d.store.events) c cs
      (λ d x h.
        let (more, e) = step_events d x in
        (h.0 ++ more, e ∙ ap (λ l. l ++ more) h.1 ∙ append_assoc c.store.events h.0 more))
      ([], sym (append-nil c.store.events))
