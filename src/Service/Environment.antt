-- ===== src/Service/Environment.antt =====
-- internal/service/service.go: what all use cases share.
use ufo_observation_command.Base.{ℤ, String, Bool, Option, ok, Method}
use ufo_observation_command.Repository.Types.{AuditInput}

-- What a service uses besides the repository: its clock, the wall clock of `time.Now`, the
-- identifiers of `uuid.NewString` and the time zones that `time.LoadLocation` finds.
pub record Environment (W : Type 0) : Type 0 where
  pub now : W → ℤ
  pub wall : W → ℤ
  pub new_id : W → String × W
  pub known_zone : String → Bool

pub record RequestMeta : Type 0 where
  pub request_id : String
  pub array_operator_id : Option String

-- `audit` with the outcome "success" and no detail, as every use case calls it.
unfoldable pub audit : RequestMeta → String → String → String → AuditInput
audit meta object_type object_id action = record {
  request_id = meta.request_id;
  array_operator_id = meta.array_operator_id;
  object_type = object_type;
  object_id = object_id;
  action = action;
  outcome = "success";
  detail = "";
}

abbrev pub get_now : {W : Type 0} → Environment W → Method W ℤ
get_now env w = (ok (env.now w), w)

abbrev pub get_wall : {W : Type 0} → Environment W → Method W ℤ
get_wall env w = (ok (env.wall w), w)

abbrev pub new_string : {W : Type 0} → Environment W → Method W String
new_string env w = (ok (env.new_id w).0, (env.new_id w).1)
