-- ===== src/Service/Windows.antt =====
-- internal/service/service.go and round.go: dive windows.
pub mod Audited
use ufo_observation_command.Base.{
  ltb, ◌==ℕ◌, ltb_ℤ, ℤ, pos, String, ◌||◌, List, length, Method, refuse,
}
use ufo_observation_command.Base.Methods.{◌>>=◌, ◌>>◌, return, lift}
use ufo_observation_command.Domain.Errors.{capacity_sentinel}
use ufo_observation_command.Domain.DiveWindow
use ufo_observation_command.Domain.DiveWindow.{DiveWindow}
use ufo_observation_command.Domain.Validation.{validate_business_code}
use ufo_observation_command.Repository.Types.{Repository, DiveWindowInput}
use ufo_observation_command.Service.Environment.{RequestMeta, audit}
use ufo_observation_command.Service.Checks.{validate_ids}

module _ {W : Type 0} (repo : Repository W) (meta : RequestMeta) where
  unfoldable pub write_dive_window : DiveWindowInput → List String → Method W String
  unfolding audit
  write_dive_window input task_ids = repo.in_tx do
    id ← repo.create_dive_window input
    repo.attach_recovery_jobs id task_ids
    repo.write_audit (audit meta "dive_window" id "create")
    return id

  unfoldable pub create_dive_window : DiveWindowInput → List String → Method W String
  unfolding DiveWindow.validate validate_business_code validate_ids write_dive_window
  create_dive_window input task_ids = do
    lift (
        refuse (length task_ids ==ℕ 0 || ltb_ℤ input.capacity (pos (length task_ids)))
          capacity_sentinel)
    lift (
        DiveWindow.validate record {
          id = "";
          code = input.code;
          status = "";
          method = input.method;
          capacity = input.capacity;
          recovery_jobs = task_ids;
          version = pos 0;
        })
    lift (validate_business_code input.code)
    lift (validate_ids task_ids)
    write_dive_window input task_ids

  -- StartDiveWindow, CompleteDiveWindow and CancelDiveWindow give the status and the word.
  unfoldable pub change_dive_window : String → ℤ → String → String → Method W (Unit {0})
  unfolding audit
  change_dive_window id version next action = repo.in_tx do
    repo.change_dive_window id next version
    repo.write_audit (audit meta "dive_window" id action)
