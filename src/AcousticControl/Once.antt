-- ===== src/AcousticControl/Once.antt =====
-- What happens once: the first response to a request is the one that is kept, a callback is
-- registered once, and one of the updates of a mission at one version succeeds.
use ufo_observation_command.Base.{
  ℕ, ℤ, inc64, inc64-ne, ◌==ℤ◌, ==ℤ_iff, String, eq_iff, ◌≡◌, ◌≢◌, ap, subst, ◌∙◌, true, false,
  some, List, get, get-put_self, string_key, Result, ok, err, arith, Bool-cases, Option-cases,
  Result-cases, inl, inr,
}
use ufo_observation_command.ArrayOps.Types.{SurveyMission, Callback}
use ufo_observation_command.ArrayOps.Policy.{
  idempotency_key, callback_key, conflict_error, can_dispatch,
}
use ufo_observation_command.ArrayOps.Store.{
  save_idempotent, idempotent, record_callback, update_survey_mission,
}
use ufo_observation_command.AcousticControl.{
  AcousticControl, save_idempotent_response, load_idempotent_response, register_callback, dispatch,
  promote, to_dispatching, to_promoted, on_store,
}
use ufo_observation_command.AcousticControl.History.{Call, run, run_idempotency, run_callbacks}

-- A first response that was saved for a request is what every later lookup for it returns, whatever
-- is called in between.
pub first_response_wins :
    (tenant_id method path key : String) (response : List ℕ) (c : AcousticControl) (cs : List Call)
    → (save_idempotent_response tenant_id method path key response c).0 ≡ ok true
    → load_idempotent_response
        (run (save_idempotent_response tenant_id method path key response c).1 cs)
        tenant_id
        method
        path
        key
      ≡ ok (some response)
unfolding load_idempotent_response save_idempotent_response save_idempotent idempotent
first_response_wins t m p k response c cs h = elim (Result-cases (idempotency_key t m p k)) [
  | inl (e, q) ↦ absurd (ground arith)
  | inr (scope, q) ↦ elim (Option-cases (get c.store.idempotency scope)) [
    | inr (old, f) ↦ absurd (ground arith)
    | inl f ↦ ground (
      arith,
      run_idempotency scope response (save_idempotent_response t m p k response c).1 cs,
      get-put_self c.store.idempotency scope response,
    )
  ]
]

-- A callback that was registered is known for good: registering it again, after any calls, returns
-- false and changes nothing.
pub callback_once :
    (callback : Callback) (c : AcousticControl) (cs : List Call)
    → (register_callback callback c).0 ≡ ok true
    → let d = run (register_callback callback c).1 cs in
      register_callback callback d ≡ (ok false, d)
unfolding register_callback record_callback
callback_once callback c cs h = elim (Result-cases (callback_key callback)) [
  | inl (e, q) ↦ absurd (ground arith)
  | inr (key, q) ↦ elim (Option-cases (get c.store.callbacks key)) [
    | inr (old, f) ↦ absurd (ground arith)
    | inl f ↦ ground (
      arith,
      run_callbacks key callback (register_callback callback c).1 cs,
      get-put_self c.store.callbacks key callback,
    )
  ]
]

changed : (v w : ℤ) → (v ==ℤ w) ≡ true → (inc64 v ==ℤ w) ≡ false
changed v w h = subst (λ u. (inc64 v ==ℤ u) ≡ false) ((==ℤ_iff v w).0 h) (inc64-ne v)

-- An update for a version that the mission does not have changes nothing.
stale :
    (id : String) (version : ℤ) (update : SurveyMission → Result SurveyMission)
    (c : AcousticControl) (m : SurveyMission)
    → get c.store.survey_missions id ≡ some m
    → (m.version ==ℤ version) ≡ false
    → on_store c (update_survey_mission id version update c.store)
      ≡ (err (conflict_error "survey_mission version changed: %w"), c)
unfolding update_survey_mission
stale id version update c m q v = ground arith

-- A dispatch that succeeds found the mission running, approved and at the expected version. It
-- leaves it dispatching at the next version, so a second dispatch or promotion for the same
-- expected version is a conflict that changes nothing.
pub dispatch_once :
    (id : String) (version : ℤ) (c : AcousticControl)
    → (dispatch id version c).0 ≡ ok tt
    → let d = (dispatch id version c).1 in
      (m : SurveyMission) × (get c.store.survey_missions id ≡ some m)
      × (m.version ≡ version)
      × (m.state ≡ "running")
      × (m.approved_digest ≢ "")
      × (get d.store.survey_missions id
          ≡ some (record m { state = "dispatching"; version = inc64 version }))
      × (dispatch id version d ≡ (err (conflict_error "survey_mission version changed: %w"), d))
      × (promote id version d ≡ (err (conflict_error "survey_mission version changed: %w"), d))
unfolding dispatch promote update_survey_mission can_dispatch
dispatch_once id version c h = elim (Option-cases (get c.store.survey_missions id)) [
  | inl q ↦ absurd (ground arith)
  | inr (m, q) ↦ elim (Bool-cases (m.version ==ℤ version)) [
    | inr v ↦ absurd (ground arith)
    | inl v ↦
        let next : SurveyMission = record m { state = "dispatching"; version = inc64 m.version } in
        let found : get (dispatch id version c).1.store.survey_missions id ≡ some next =
          ground (arith, eq_iff m.state "running", get-put_self c.store.survey_missions id next) in
        (
          m,
          q,
          (==ℤ_iff _ _).0 v,
          ground (arith, eq_iff m.state "running"),
          ground (arith, eq_iff m.approved_digest "", eq_iff m.state "running"),
          found
              ∙ ap (λ w. some (record m { state = "dispatching"; version = inc64 w }))
                  ((==ℤ_iff _ _).0 v),
          stale id version to_dispatching _ next found (changed m.version version v),
          stale id version to_promoted _ next found (changed m.version version v),
        )
  ]
]
