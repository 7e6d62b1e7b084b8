-- ===== src/ArrayOps/Store.antt =====
-- internal/arrayops/store.go: the maps of the package behind one mutex. Each method is one atomic
-- step on the record; a lookup that returns `(value, ok)` is an `Option`.
use Prim.Native.Nat.{Ordering}
use Prim.Native.String.{compare as compare_text}
use ufo_observation_command.Base.{
  ℕ, ◌-◌, ℤ, pos, pos_part, ltb_ℤ, leb_ℤ, ◌==ℤ◌, inc64, add64, String, ◌==◌, Bool, true, false, not,
  ◌&&◌, ◌||◌, Option, none, some, List, [], ◌∷◌, ◌++◌, length, take, drop, keep, if◌then◌else◌,
  Dict, get, put, string_key, Result, ok, err, Method,
}
use ufo_observation_command.ArrayOps.Types.{
  CalibrationBundle, Buoy, SurveyMission, Callback, Session, Event, Query, Page,
}
use ufo_observation_command.ArrayOps.Copy.{
  clone_calibration_bundle, clone_survey_mission, clone_buoys,
}
use ufo_observation_command.ArrayOps.Policy.{conflict_error, invalid_error, callback_key}

pub record Store : Type 0 where
  pub calibration_bundles : Dict String CalibrationBundle
  pub buoys : Dict String Buoy
  pub survey_missions : Dict String SurveyMission
  pub callbacks : Dict String Callback
  pub idempotency : Dict String (List ℕ)
  pub sessions : Dict String Session
  pub events : List Event

abbrev pub new_store : Store
new_store = record {
  calibration_bundles = [];
  buoys = [];
  survey_missions = [];
  callbacks = [];
  idempotency = [];
  sessions = [];
  events = [];
}

unfoldable pub put_calibration_bundle : CalibrationBundle → Method Store Unit
put_calibration_bundle bundle s =
    if bundle.id == "" || bundle.tenant_id == ""
    then (err (invalid_error "calibration_bundle identity is missing: %w"), s)
    else (
      ok tt,
      record s {
        calibration_bundles = put s.calibration_bundles bundle.id (clone_calibration_bundle bundle);
      },
    )

-- The zero value that comes back beside `false` is not kept.
abbrev map_option {ℓ} : {A B : Type ℓ} → (A → B) → Option A → Option B
map_option f none = none
map_option f (some a) = some (f a)

unfoldable pub calibration_bundle : Store → String → Option CalibrationBundle
calibration_bundle s id = map_option clone_calibration_bundle (get s.calibration_bundles id)

unfoldable pub put_buoy : Buoy → Method Store Unit
put_buoy b s =
    if b.id == "" || b.tenant_id == ""
    then (err (invalid_error "buoy identity is missing: %w"), s)
    else (ok tt, record s { buoys = put s.buoys b.id b })

unfoldable pub buoy : Store → String → Option Buoy
buoy s id = get s.buoys id

unfoldable pub put_survey_mission : SurveyMission → Method Store Unit
unfolding clone_survey_mission
put_survey_mission m s =
    if m.id == "" || m.tenant_id == ""
    then (err (invalid_error "survey_mission identity is missing: %w"), s)
    else (ok tt, record s { survey_missions = put s.survey_missions m.id (clone_survey_mission m) })

unfoldable pub survey_mission : Store → String → Option SurveyMission
unfolding clone_survey_mission
survey_mission s id = map_option clone_survey_mission (get s.survey_missions id)

-- The callback changes a local copy of the mission, which is dropped when it fails.
finish_update : String → Result SurveyMission → Method Store Unit
unfolding clone_survey_mission
finish_update id (err e) s = (err e, s)
finish_update id (ok m) s = (
  ok tt,
  record s {
    survey_missions =
        put s.survey_missions id (clone_survey_mission (record m { version = inc64 m.version }));
  },
)

update_found :
    String → ℤ → (SurveyMission → Result SurveyMission) → Option SurveyMission → Method Store Unit
unfolding finish_update
update_found id expected update none s = (err (conflict_error "survey_mission not found: %w"), s)
update_found id expected update (some m) s =
    if not (m.version ==ℤ expected)
    then (err (conflict_error "survey_mission version changed: %w"), s)
    else finish_update id (update m) s

unfoldable pub update_survey_mission :
    String → ℤ → (SurveyMission → Result SurveyMission) → Method Store Unit
unfolding update_found
update_survey_mission id expected update s =
    update_found id expected update (get s.survey_missions id) s

-- `true` where the callback is new.
record_at : Callback → Result String → Method Store Bool
record_at callback (err e) s = (err e, s)
record_at callback (ok key) s = elim (get s.callbacks key) [
  | some _ ↦ (ok false, s)
  | none ↦ (ok true, record s { callbacks = put s.callbacks key callback })
]

unfoldable pub record_callback : Callback → Method Store Bool
unfolding record_at
record_callback callback s = record_at callback (callback_key callback) s

unfoldable pub save_idempotent : String → List ℕ → Store → Bool × Store
save_idempotent key body s = elim (get s.idempotency key) [
  | some _ ↦ (false, s)
  | none ↦ (true, record s { idempotency = put s.idempotency key body })
]

unfoldable pub idempotent : Store → String → Option (List ℕ)
idempotent s key = get s.idempotency key

unfoldable pub put_session : Session → Method Store Unit
put_session session s =
    if session.token == "" || session.tenant_id == "" || session.user_id == ""
    then (err (invalid_error "session identity is missing: %w"), s)
    else (ok tt, record s { sessions = put s.sessions session.token session })

unfoldable pub session : Store → String → Option Session
session s token = get s.sessions token

revoke_found : String → ℤ → Option Session → Store → Bool × Store
revoke_found token at none s = (false, s)
revoke_found token at (some x) s = elim x.revoked_at [
  | some _ ↦ (false, s)
  | none ↦ (true, record s { sessions = put s.sessions token (record x { revoked_at = some at }) })
]

unfoldable pub revoke_session : String → ℤ → Store → Bool × Store
unfolding revoke_found
revoke_session token at s = revoke_found token at (get s.sessions token) s

unfoldable pub append_event : Event → Method Store Unit
append_event e s =
    if e.tenant_id == "" || e.request_id == "" || e.object_id == "" || e.action == ""
    then (err (invalid_error "audit correlation is incomplete: %w"), s)
    else (ok tt, record s { events = s.events ++ e ∷ [] })

unfoldable pub compare_string : String → String → ℤ
compare_string left right = elim (compare_text left right) [
  | Ordering.lt ↦ ℤ.negsuc 0
  | Ordering.gt ↦ pos 1
  | Ordering.eq ↦ pos 0
]

-- `slices.SortFunc` by identifier.
insert_buoy : Buoy → List Buoy → List Buoy
insert_buoy b [] = b ∷ []
insert_buoy b (c ∷ rest) =
    let later = insert_buoy b rest in
    if ltb_ℤ (pos 0) (compare_string b.id c.id) then c ∷ later else b ∷ c ∷ rest

unfoldable pub sort_buoys : List Buoy → List Buoy
unfolding insert_buoy compare_string
sort_buoys [] = []
sort_buoys (b ∷ rest) = insert_buoy b (sort_buoys rest)

abbrev values {ℓ} : {V : Type ℓ} → Dict String V → List V
values [] = []
values ((key, v) ∷ rest) = v ∷ values rest

abbrev pub min_ℤ : ℤ → ℤ → ℤ
min_ℤ a b = if leb_ℤ a b then a else b

abbrev pub max_ℤ : ℤ → ℤ → ℤ
max_ℤ a b = if leb_ℤ a b then b else a

abbrev pub selects : Query → Buoy → Bool
selects query b = not (
    not (b.tenant_id == query.tenant_id)
    || (not (query.class == "") && not (b.class == query.class)))

-- `filtered[start:end]`, which panics (`none`) unless 0 <= start <= end; `end` is within the slice.
abbrev pub slice {ℓ} : {A : Type ℓ} → List A → ℤ → ℤ → Option (List A)
slice xs start end =
    if leb_ℤ (pos 0) start && leb_ℤ start end
    then some (take (pos_part end - pos_part start) (drop (pos_part start) xs))
    else none

unfoldable pub query_buoys : Query → Store → Option (Page Buoy)
unfolding sort_buoys clone_buoys
query_buoys query s =
    let filtered : List Buoy = sort_buoys (keep (selects query) (values s.buoys)) in
    let total : ℤ = pos (length filtered) in
    let start : ℤ = min_ℤ (max_ℤ query.offset (pos 0)) total in
    let limit : ℤ = if leb_ℤ query.limit (pos 0) then pos 50 else query.limit in
    let end : ℤ = min_ℤ (add64 start limit) total in
    map_option (λ items. record { items = clone_buoys items; total = total })
      (slice filtered start end)
