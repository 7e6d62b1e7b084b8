-- ===== src/Service/Operators.antt =====
-- internal/service/array_operators.go, array_operators_query.go, assignment.go and policies.go: operators, their assignments
-- and what they may do.
pub mod Audited
use ufo_observation_command.Base.{ℤ, String, not, refuse, wrap, Method}
use ufo_observation_command.Base.Methods.{◌>>=◌, ◌>>◌, return, lift, map_error}
use ufo_observation_command.Domain.Errors.{conflict_error}
use ufo_observation_command.Domain.Operator
use ufo_observation_command.Domain.Operator.{ArrayOperator, can}
use ufo_observation_command.Domain.Assignment.{Assignment, can_assign}
use ufo_observation_command.Repository.Types.{Repository}
use ufo_observation_command.Service.Checks.{validate_code}
use ufo_observation_command.Service.Environment.{Environment, RequestMeta, audit, new_string}

module _ {W : Type 0} (repo : Repository W) (env : Environment W) (meta : RequestMeta) where
  unfoldable pub write_operator : ArrayOperator → Method W (Unit {0})
  unfolding audit
  write_operator operator = repo.in_tx do
    map_error (wrap "register array_operator: %w") (repo.create_array_operator operator)
    repo.write_audit (audit meta "array_operator" operator.id "create")

  unfoldable pub register_array_operator : String → String → Method W ArrayOperator
  unfolding Operator.validate write_operator
  register_array_operator name role = do
    id ← new_string env
    lift (Operator.validate record { id = id; name = name; role = role })
    write_operator record { id = id; name = name; role = role }
    return record { id = id; name = name; role = role }

  unfoldable pub rename_array_operator : String → String → Method W (Unit {0})
  unfolding validate_code audit
  rename_array_operator id name = do
    lift (validate_code name)
    repo.in_tx do
      repo.rename_array_operator id name
      repo.write_audit (audit meta "array_operator" id "rename")

  unfoldable pub assign_acoustic_buoy : Assignment → ArrayOperator → Method W (Unit {0})
  unfolding can_assign audit
  assign_acoustic_buoy assignment operator = do
    lift (can_assign operator assignment)
    repo.in_tx do
      repo.validate_placement assignment.survey_mission_id assignment.acoustic_buoy_id
      repo.create_assignment assignment
      repo.write_audit (audit meta "assignment" assignment.id "create")

  unfoldable pub advance_assignment : String → String → ℤ → Method W (Unit {0})
  unfolding audit
  advance_assignment id next version =
      repo.in_tx do
        repo.advance_assignment id next version
        repo.write_audit (audit meta "assignment" id next)

  unfoldable pub authorize : String → String → Method W (Unit {0})
  unfolding can
  authorize operator_id action = do
    operator ← repo.get_array_operator operator_id
    lift (refuse (not (can operator action)) (conflict_error "array_operator cannot %s: %w"))
