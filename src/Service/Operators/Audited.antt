-- ===== src/Service/Operators/Audited.antt =====
-- internal/service/array_operators.go and assignment.go: the entries of operators and assignments.
use ufo_observation_command.Base.{ℤ, String, [], ◌∷◌}
use ufo_observation_command.Domain.Operator.{ArrayOperator}
use ufo_observation_command.Domain.Assignment.{Assignment}
use ufo_observation_command.Repository.Types.{Repository}
use ufo_observation_command.Service.Operators.{
  write_operator, register_array_operator, rename_array_operator, assign_acoustic_buoy,
  advance_assignment,
}
use ufo_observation_command.Service.Environment.{Environment, RequestMeta}
use ufo_observation_command.Service.Contract.{Contract, Adds}
use ufo_observation_command.Service.Trail.{
  return-Quiet, lift-Quiet, bind-Adds, bind-Quiet, map_error-Quiet, audit-Adds,
}

module _ {W : Type 0} {repo : Repository W} {env : Environment W} (meta : RequestMeta)
    (c : Contract repo env) where
  pub register_array_operator-Adds :
      (name role : String)
      → Adds c.trail
          ((meta.request_id, "array_operator", "create") ∷ [])
          (register_array_operator repo env meta name role)
  unfolding register_array_operator write_operator
  register_array_operator-Adds name role = bind-Adds c.new_string-Quiet λ id.
      bind-Adds (lift-Quiet _) λ _.
        bind-Quiet
          (c.in_tx-Adds _ _ (
            bind-Adds (map_error-Quiet _ (c.create_array_operator-Quiet _))
              λ _. audit-Adds meta c "array_operator" id "create"))
          λ _. return-Quiet _

  pub rename_array_operator-Adds :
      (id name : String)
      → Adds c.trail
          ((meta.request_id, "array_operator", "rename") ∷ [])
          (rename_array_operator repo env meta id name)
  unfolding rename_array_operator
  rename_array_operator-Adds id name = bind-Adds (lift-Quiet _) λ _. c.in_tx-Adds _ _ (
      bind-Adds (c.rename_array_operator-Quiet id name)
        λ _. audit-Adds meta c "array_operator" id "rename")

  pub assign_acoustic_buoy-Adds :
      (assignment : Assignment) (operator : ArrayOperator)
      → Adds c.trail
          ((meta.request_id, "assignment", "create") ∷ [])
          (assign_acoustic_buoy repo env meta assignment operator)
  unfolding assign_acoustic_buoy
  assign_acoustic_buoy-Adds assignment operator = bind-Adds (lift-Quiet _) λ _. c.in_tx-Adds _ _ (
      bind-Adds (c.validate_placement-Quiet _ _) λ _.
        bind-Adds (c.create_assignment-Quiet assignment)
          λ _. audit-Adds meta c "assignment" _ "create")

  pub advance_assignment-Adds :
      (id next : String) (version : ℤ)
      → Adds c.trail
          ((meta.request_id, "assignment", next) ∷ [])
          (advance_assignment repo env meta id next version)
  unfolding advance_assignment
  advance_assignment-Adds id next version = c.in_tx-Adds _ _ (
      bind-Adds (c.advance_assignment-Quiet id next version)
        λ _. audit-Adds meta c "assignment" id next)
