-- ===== src/Service/Missions.antt =====
-- internal/service/service.go: survey missions.
pub mod Audited
use ufo_observation_command.Base.{
  ◌==ℕ◌, ℤ, pos, String, ◌==◌, not, ◌||◌, List, [], ◌∷◌, length, refuse, Method,
}
use ufo_observation_command.Base.Methods.{◌>>=◌, ◌>>◌, return, lift}
use ufo_observation_command.Domain.Errors.{conflict_error, transition_error}
use ufo_observation_command.Domain.SurveyMission.{SurveyMission, can_move_to, validate_window}
use ufo_observation_command.Domain.Validation.{validate_business_code}
use ufo_observation_command.Repository.Types.{Repository, AcousticBuoyInput}
use ufo_observation_command.Service.Environment.{
  Environment, RequestMeta, audit, get_now, new_string,
}
use ufo_observation_command.Service.Checks.{validate_code, check_buoys}

pub record CreateSurveyMissionRequest : Type 0 where
  pub code : String
  pub name : String
  pub timezone : String
  pub starts_at : ℤ
  pub ends_at : ℤ
  pub created_by : String
  pub acoustic_buoys : List AcousticBuoyInput

module _ {W : Type 0} (repo : Repository W) (env : Environment W) (meta : RequestMeta) where
  -- The loop that writes the buoys, and the identifiers of their rows.
  unfoldable pub create_buoys : String → List AcousticBuoyInput → Method W (List String)
  create_buoys mission_id [] = return []
  create_buoys mission_id (b ∷ buoys) = do
    id ← repo.create_acoustic_buoy (record b { survey_mission_id = mission_id })
    ids ← create_buoys mission_id buoys
    return (id ∷ ids)

  unfoldable pub write_survey_mission :
      SurveyMission → List AcousticBuoyInput → Method W (List String)
  unfolding create_buoys audit
  write_survey_mission mission buoys = repo.in_tx do
    repo.create_survey_mission mission
    ids ← create_buoys mission.id buoys
    repo.write_audit (audit meta "acoustic_buoy_survey_mission" mission.id "create")
    return ids

  unfoldable pub create_survey_mission :
      CreateSurveyMissionRequest → Method W (SurveyMission × List String)
  unfolding check_buoys validate_code validate_business_code validate_window write_survey_mission
  create_survey_mission input = do
    lift (
        refuse
          (input.code == ""
            || input.name == ""
            || input.created_by == ""
            || length input.acoustic_buoys ==ℕ 0)
          (conflict_error "code, name, creator and acoustic_buoys are required: %w"))
    lift (validate_business_code input.code)
    lift (validate_code input.name)
    lift (
        refuse (not (env.known_zone input.timezone))
          (conflict_error "invalid survey_mission timezone: %w"))
    lift (check_buoys [] input.acoustic_buoys)
    id ← new_string env
    now ← get_now env
    let mission : SurveyMission = record {
      id = id;
      code = input.code;
      name = input.name;
      status = "draft";
      timezone = input.timezone;
      starts_at = input.starts_at;
      ends_at = input.ends_at;
      version = pos 1;
      created_by = input.created_by;
    }
    lift (validate_window mission now)
    ids ← write_survey_mission mission input.acoustic_buoys
    return (mission, ids)

  unfoldable pub advance_survey_mission : String → String → ℤ → String → Method W (Unit {0})
  unfolding can_move_to audit
  advance_survey_mission id next version action = repo.in_tx do
    mission ← repo.get_survey_mission id
    lift (refuse (not (can_move_to mission.status next)) (transition_error "survey_mission %s: %w"))
    repo.advance_survey_mission id next version
    repo.write_audit (audit meta "acoustic_buoy_survey_mission" id action)
