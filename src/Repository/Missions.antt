-- ===== src/Repository/Missions.antt =====
-- internal/repository/postgres.go, business_checks.go, array_operators.go,
-- array_operators_query.go, array_operator_roles.go and assignment.go: the statements on missions, buoys, operators and assignments.
use ufo_observation_command.Base.{
  ℤ, pos, ◌+ℤ◌, ◌==ℤ◌, String, ◌==◌, Bool, true, false, if◌then◌else◌, ◌&&◌, Option, none, some,
  List, any, Dict, get, string_key, sentinel, wrap, not_found, invalid_transition, Method, not,
  refuse,
}
use ufo_observation_command.Base.Methods.{◌>>=◌, ◌>>◌, return, fail, lift, map_error}
use ufo_observation_command.Domain.Errors.{conflict_error}
use ufo_observation_command.Domain.SurveyMission.{SurveyMission}
use ufo_observation_command.Domain.Operator
use ufo_observation_command.Domain.Operator.{ArrayOperator}
use ufo_observation_command.Domain.Assignment
use ufo_observation_command.Domain.Assignment.{Assignment, assignment_sources_for}
use ufo_observation_command.Domain.Validation.{AcousticBuoy}
use ufo_observation_command.Repository.Types.{AcousticBuoyInput}
use ufo_observation_command.Repository.Tables.{Tables, AssignmentRow, insert_row, update_row}
use ufo_observation_command.Repository.Driver.{
  Driver, World, statement, select, insert, update, draw_id,
}

-- What the statements do to the tables.
unfoldable pub insert_mission : SurveyMission → Tables → Bool × Tables
unfolding insert_row
insert_mission m t =
    let rows : Bool × Dict String SurveyMission = insert_row t.missions m.id m in
    (rows.0, record t { missions = rows.1 })

unfoldable pub set_mission : String → String → ℤ → Tables → Bool × Tables
unfolding update_row
set_mission id status version t =
    let rows : Bool × Dict String SurveyMission =
      update_row t.missions id (λ m. m.version ==ℤ version)
        (λ m. record m { status = status; version = m.version +ℤ pos 1 }) in
    (rows.0, record t { missions = rows.1 })

unfoldable pub insert_buoy : String → AcousticBuoyInput → Tables → Bool × Tables
unfolding insert_row
insert_buoy id input t =
    let rows : Bool × Dict String AcousticBuoy = insert_row t.buoys id record {
      id = id;
      survey_mission_id = input.survey_mission_id;
      code = input.code;
      arrayops_lane = input.arrayops_lane;
      required_successes = input.required_successes;
      completed = pos 0;
    } in
    (rows.0, record t { buoys = rows.1 })

unfoldable pub insert_operator : ArrayOperator → Tables → Bool × Tables
unfolding insert_row
insert_operator o t =
    let rows : Bool × Dict String ArrayOperator = insert_row t.operators o.id o in
    (rows.0, record t { operators = rows.1 })

-- The UPDATEs of an operator's name and role.
unfoldable pub set_name : String → String → Tables → Bool × Tables
unfolding update_row
set_name id name t =
    let rows : Bool × Dict String ArrayOperator =
      update_row t.operators id (λ o. true) (λ o. record o { name = name }) in
    (rows.0, record t { operators = rows.1 })

unfoldable pub set_role : String → String → Tables → Bool × Tables
unfolding update_row
set_role id role t =
    let rows : Bool × Dict String ArrayOperator =
      update_row t.operators id (λ o. true) (λ o. record o { role = role }) in
    (rows.0, record t { operators = rows.1 })

unfoldable pub insert_assignment : Assignment → Tables → Bool × Tables
unfolding insert_row
insert_assignment a t =
    let rows : Bool × Dict String AssignmentRow =
      insert_row t.assignments a.id record { assignment = a; version = pos 1 } in
    (rows.0, record t { assignments = rows.1 })

unfoldable pub set_assignment : List String → String → String → ℤ → Tables → Bool × Tables
unfolding update_row
set_assignment sources id next version t =
    let rows : Bool × Dict String AssignmentRow =
      update_row t.assignments id
        (λ a. a.version ==ℤ version && any (λ s. s == a.assignment.status) sources)
        (λ a. record {
          assignment = record a.assignment { status = next };
          version = a.version +ℤ pos 1;
        }) in
    (rows.0, record t { assignments = rows.1 })

-- A buoy of the mission.
unfoldable pub placed_in : Option AcousticBuoy → String → Bool
placed_in none mission_id = false
placed_in (some b) mission_id = b.survey_mission_id == mission_id

-- The row of a key, or `ErrNotFound`.
unfoldable pub found : {D A : Type 0} → Option A → Method (World D) A
found none = fail (sentinel not_found)
found (some row) = return row

module _ {D : Type 0} (sql : Driver D) where
  unfoldable pub create_survey_mission : SurveyMission → Method (World D) (Unit {0})
  unfolding insert insert_mission
  create_survey_mission m = insert sql (insert_mission m)

  unfoldable pub get_survey_mission : String → Method (World D) SurveyMission
  unfolding select found
  get_survey_mission id = do
    row ← map_error (wrap "get survey_mission: %w") (select sql (λ t. get t.missions id))
    found row

  unfoldable pub advance_survey_mission : String → String → ℤ → Method (World D) (Unit {0})
  unfolding update set_mission
  advance_survey_mission id status version =
      update sql "advance survey_mission: %w" (set_mission id status version)

  unfoldable pub create_acoustic_buoy : AcousticBuoyInput → Method (World D) String
  unfolding draw_id insert insert_buoy
  create_acoustic_buoy input = do id ← draw_id sql; insert sql (insert_buoy id input); return id

  unfoldable pub validate_placement : String → String → Method (World D) (Unit {0})
  unfolding select placed_in
  validate_placement mission_id buoy_id = do
    exists ←
        map_error (wrap "validate survey_mission acoustic_buoy: %w")
          (select sql (λ t. placed_in (get t.buoys buoy_id) mission_id))
    lift
        (refuse (not exists) (conflict_error "acoustic_buoy does not belong to survey_mission: %w"))

  unfoldable pub create_array_operator : ArrayOperator → Method (World D) (Unit {0})
  unfolding Operator.validate insert insert_operator
  create_array_operator o = do lift (Operator.validate o); insert sql (insert_operator o)

  -- An UPDATE of an operator, which has to be there.
  unfoldable pub update_operator : String → (Tables → Bool × Tables) → Method (World D) (Unit {0})
  unfolding statement
  update_operator msg f = do
    affected ← map_error (wrap msg) (statement sql f)
    if affected then return tt else fail (sentinel not_found)

  unfoldable pub rename_array_operator : String → String → Method (World D) (Unit {0})
  unfolding update_operator set_name
  rename_array_operator id name = update_operator "rename array_operator: %w" (set_name id name)

  unfoldable pub change_array_operator_role : String → String → Method (World D) (Unit {0})
  unfolding update_operator set_role Operator.validate
  change_array_operator_role id role = do
    lift (Operator.validate record { id = id; name = "valid"; role = role })
    update_operator "change array_operator role: %w" (set_role id role)

  unfoldable pub get_array_operator : String → Method (World D) ArrayOperator
  unfolding select found
  get_array_operator id = do
    row ← map_error (wrap "get array_operator: %w") (select sql (λ t. get t.operators id))
    found row

  unfoldable pub create_assignment : Assignment → Method (World D) (Unit {0})
  unfolding Assignment.validate insert insert_assignment
  create_assignment a = do lift (Assignment.validate a); insert sql (insert_assignment a)

  unfoldable pub advance_from :
      Option (List String) → String → String → ℤ → Method (World D) (Unit {0})
  unfolding update set_assignment
  advance_from none id next version = fail (sentinel invalid_transition)
  advance_from (some sources) id next version =
      update sql "advance assignment: %w" (set_assignment sources id next version)

  unfoldable pub advance_assignment : String → String → ℤ → Method (World D) (Unit {0})
  unfolding advance_from assignment_sources_for
  advance_assignment id next version = advance_from (assignment_sources_for next) id next version
