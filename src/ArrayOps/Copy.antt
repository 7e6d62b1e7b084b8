-- ===== src/ArrayOps/Copy.antt =====
-- internal/arrayops/copy.go: copies that share no map and no slice with what they copy. In a model
-- of values a copy of a slice is the slice; a map is copied entry by entry, as the source does.
use ufo_observation_command.Base.{string_key, String, List, Dict, copy}
use ufo_observation_command.ArrayOps.Types.{CalibrationBundle, SurveyMission, Buoy}

unfoldable pub restore_labels : Dict String String → Dict String String
unfolding copy
restore_labels snapshot = copy snapshot

unfoldable pub clone_calibration_bundle : CalibrationBundle → CalibrationBundle
unfolding restore_labels
clone_calibration_bundle value = record value { labels = restore_labels value.labels }

unfoldable pub clone_survey_mission : SurveyMission → SurveyMission
clone_survey_mission value = record value { buoy_ids = value.buoy_ids }

unfoldable pub clone_buoys : List Buoy → List Buoy
clone_buoys values = values
