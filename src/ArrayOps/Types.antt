-- ===== src/ArrayOps/Types.antt =====
-- internal/arrayops/types.go: the records that the package keeps and passes on.
use ufo_observation_command.Base.{ℤ, String, Bool, Option, List, Dict}

pub record CalibrationBundle : Type 0 where
  pub id : String
  pub tenant_id : String
  pub version : String
  pub digest : String
  pub buoy_classes : List String
  pub labels : Dict String String
  pub signed : Bool

pub record Buoy : Type 0 where
  pub id : String
  pub tenant_id : String
  pub class : String
  pub current_version : String
  pub previous_version : String
  pub generation : ℤ
  pub quarantined : Bool

pub record SurveyMission : Type 0 where
  pub id : String
  pub tenant_id : String
  pub calibration_bundle_id : String
  pub state : String
  pub required_healthy : ℤ
  pub healthy : ℤ
  pub failed : ℤ
  pub buoy_ids : List String
  pub approved_digest : String
  pub version : ℤ

pub record Callback : Type 0 where
  pub tenant_id : String
  pub buoy_id : String
  pub calibration_bundle_id : String
  pub event_id : String
  pub status : String
  pub at : ℤ

pub record Session : Type 0 where
  pub token : String
  pub tenant_id : String
  pub user_id : String
  pub role : String
  pub expires_at : ℤ
  pub revoked_at : Option ℤ

pub record Event : Type 0 where
  pub tenant_id : String
  pub request_id : String
  pub object_id : String
  pub action : String
  pub digest : String
  pub at : ℤ

pub record Query : Type 0 where
  pub tenant_id : String
  pub state : String
  pub class : String
  pub limit : ℤ
  pub offset : ℤ

pub record Page {ℓ} (T : Type ℓ) : Type ℓ where
  pub items : List T
  pub total : ℤ
