-- ===== src/Service/Missions/Audited.antt =====
-- internal/service/service.go: the entries that the use cases of missions leave in the trail.
use ufo_observation_command.Base.{ℤ, String, List, [], ◌∷◌}
use ufo_observation_command.Repository.Types.{Repository, AcousticBuoyInput}
use ufo_observation_command.Service.Missions.{
  CreateSurveyMissionRequest, create_buoys, write_survey_mission, create_survey_mission,
  advance_survey_mission,
}
use ufo_observation_command.Service.Environment.{Environment, RequestMeta}
use ufo_observation_command.Service.Contract.{Contract, Adds, Quiet}
use ufo_observation_command.Service.Trail.{
  get_now-Quiet, return-Quiet, lift-Quiet, bind-Adds, bind-Quiet, audit-Adds,
}

module _ {W : Type 0} {repo : Repository W} {env : Environment W} (meta : RequestMeta)
    (c : Contract repo env) where
  pub advance_survey_mission-Adds :
      (id next : String) (version : ℤ) (action : String)
      → Adds c.trail
          ((meta.request_id, "acoustic_buoy_survey_mission", action) ∷ [])
          (advance_survey_mission repo env meta id next version action)
  unfolding advance_survey_mission
  advance_survey_mission-Adds id next version action = c.in_tx-Adds _ _ (
      bind-Adds (c.get_survey_mission-Quiet id) λ mission. bind-Adds (lift-Quiet _) λ _.
        bind-Adds (c.advance_survey_mission-Quiet id next version)
          λ _. audit-Adds meta c "acoustic_buoy_survey_mission" id action)

  create_buoys-Quiet :
      (mission_id : String) (buoys : List AcousticBuoyInput)
      → Quiet c.trail (create_buoys repo env meta mission_id buoys)
  unfolding create_buoys
  create_buoys-Quiet mission_id [] = return-Quiet []
  create_buoys-Quiet mission_id (b ∷ buoys) =
      bind-Adds (c.create_acoustic_buoy-Quiet _)
        λ id. bind-Adds (create_buoys-Quiet mission_id buoys) λ ids. return-Quiet (id ∷ ids)

  pub create_survey_mission-Adds :
      (input : CreateSurveyMissionRequest)
      → Adds c.trail
          ((meta.request_id, "acoustic_buoy_survey_mission", "create") ∷ [])
          (create_survey_mission repo env meta input)
  unfolding create_survey_mission write_survey_mission
  create_survey_mission-Adds input = bind-Adds (lift-Quiet _) λ _. bind-Adds (lift-Quiet _) λ _.
      bind-Adds (lift-Quiet _) λ _. bind-Adds (lift-Quiet _) λ _. bind-Adds (lift-Quiet _) λ _.
        bind-Adds (c.new_string-Quiet) λ id. bind-Adds (get_now-Quiet env) λ now.
          bind-Adds (lift-Quiet _) λ _.
            bind-Quiet
              (c.in_tx-Adds _ _ (
                bind-Adds (c.create_survey_mission-Quiet _) λ _.
                  bind-Adds (create_buoys-Quiet id input.acoustic_buoys) λ ids.
                    bind-Quiet (audit-Adds meta c "acoustic_buoy_survey_mission" id "create")
                      λ _. return-Quiet ids))
              λ ids. return-Quiet _
