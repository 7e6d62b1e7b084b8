-- ===== src/Service/Windows/Audited.antt =====
-- internal/service/service.go and round.go: the entries that the use cases of windows leave in the trail.
use ufo_observation_command.Base.{ℤ, String, List, [], ◌∷◌}
use ufo_observation_command.Repository.Types.{Repository, DiveWindowInput}
use ufo_observation_command.Service.Windows.{
  write_dive_window, create_dive_window, change_dive_window,
}
use ufo_observation_command.Service.Environment.{Environment, RequestMeta}
use ufo_observation_command.Service.Contract.{Contract, Adds}
use ufo_observation_command.Service.Trail.{
  return-Quiet, lift-Quiet, bind-Adds, bind-Quiet, audit-Adds,
}

module _ {W : Type 0} {repo : Repository W} {env : Environment W} (meta : RequestMeta)
    (c : Contract repo env) where
  pub create_dive_window-Adds :
      (input : DiveWindowInput) (task_ids : List String)
      → Adds c.trail
          ((meta.request_id, "dive_window", "create") ∷ [])
          (create_dive_window repo meta input task_ids)
  unfolding create_dive_window write_dive_window
  create_dive_window-Adds input task_ids = bind-Adds (lift-Quiet _) λ _.
      bind-Adds (lift-Quiet _) λ _. bind-Adds (lift-Quiet _) λ _. bind-Adds (lift-Quiet _) λ _.
        c.in_tx-Adds _ _ (
          bind-Adds (c.create_dive_window-Quiet input) λ id.
            bind-Adds (c.attach_recovery_jobs-Quiet id task_ids)
              λ _. bind-Quiet (audit-Adds meta c "dive_window" id "create") λ _. return-Quiet id)

  pub change_dive_window-Adds :
      (id : String) (version : ℤ) (next action : String)
      → Adds c.trail
          ((meta.request_id, "dive_window", action) ∷ [])
          (change_dive_window repo meta id version next action)
  unfolding change_dive_window
  change_dive_window-Adds id version next action = c.in_tx-Adds _ _ (
      bind-Adds (c.change_dive_window-Quiet id next version)
        λ _. audit-Adds meta c "dive_window" id action)
