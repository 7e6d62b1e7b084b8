-- ===== src/Service/Contract.antt =====
-- What the services rely on in a repository: a transaction that fails leaves the data as they were,
-- every method but `WriteAudit` leaves the trail of audit events alone, and `WriteAudit` adds its
-- event to it. The laws are about calls that succeed, inside a transaction.
use ufo_observation_command.Base.{
  ◌⊎◌, ℤ, String, Bool, List, [], ◌∷◌, ◌++◌, ◌≡◌, Error, ok, err, Method,
}
use ufo_observation_command.Domain.SurveyMission.{SurveyMission}
use ufo_observation_command.Domain.Operator.{ArrayOperator}
use ufo_observation_command.Domain.Assignment.{Assignment}
use ufo_observation_command.Repository.Types.{
  Repository, AuditInput, AcousticBuoyInput, RecoveryJobInput, ActivationInput, DiveWindowInput,
  SignalRecoveryReportInput, IntegrityIncidentInput,
}
use ufo_observation_command.Service.Environment.{Environment, new_string}

-- An entry of the trail: the request, the kind of object and the action.
abbrev pub Entry : Type 0
Entry = String × String × String

unfoldable pub entry : AuditInput → Entry
entry event = (event.request_id, event.object_type, event.action)

-- A method that does not touch the data.
pub record Inert {W X A : Type 0} (data_of : W → X) (m : Method W A) : Type 0 where
  pub inert : (w : W) → data_of (m w).1 ≡ data_of w

-- A method that leaves the data as they were when it fails, unless its error and the world after it
-- show a COMMIT that was applied though it reported an error.
pub record Atomic {W X A : Type 0} (data_of : W → X) (Applied : Error → W → Type 0) (m : Method W A)
    : Type 0 where
  pub atomic : (w w' : W) (e : Error) → m w ≡ (err e, w') → (data_of w' ≡ data_of w) ⊎ Applied e w'

-- A method that adds entries to the trail when it succeeds, the newest first.
pub record Adds {W A : Type 0} (trail : W → List Entry) (entries : List Entry) (m : Method W A)
    : Type 0 where
  pub adds : (w w' : W) (a : A) → m w ≡ (ok a, w') → trail w' ≡ entries ++ trail w

abbrev pub Quiet : {W A : Type 0} → (W → List Entry) → Method W A → Type 0
Quiet trail m = Adds trail [] m

pub record Contract {W : Type 0} (repo : Repository W) (env : Environment W) : Type 1 where
  pub Data : Type 0
  pub data_of : W → Data
  pub trail : W → List Entry
  pub Applied : Error → W → Type 0
  pub in_tx-Atomic : {A : Type 0} (f : Method W A) → Atomic data_of Applied (repo.in_tx f)
  pub in_tx-Adds :
      {A : Type 0} (f : Method W A) (entries : List Entry)
      → Adds trail entries f
      → Adds trail entries (repo.in_tx f)
  pub new_string-Inert : Inert data_of (new_string env)
  pub new_string-Quiet : Quiet trail (new_string env)
  pub write_audit-Adds :
      (event : AuditInput) → Adds trail (entry event ∷ []) (repo.write_audit event)
  pub create_survey_mission-Quiet : (x : SurveyMission) → Quiet trail (repo.create_survey_mission x)
  pub get_survey_mission-Quiet : (x : String) → Quiet trail (repo.get_survey_mission x)
  pub advance_survey_mission-Quiet :
      (x : String) (y : String) (z : ℤ) → Quiet trail (repo.advance_survey_mission x y z)
  pub create_acoustic_buoy-Quiet :
      (x : AcousticBuoyInput) → Quiet trail (repo.create_acoustic_buoy x)
  pub validate_placement-Quiet :
      (x : String) (y : String) → Quiet trail (repo.validate_placement x y)
  pub create_recovery_job-Quiet : (x : RecoveryJobInput) → Quiet trail (repo.create_recovery_job x)
  pub get_recovery_job-Quiet : (x : String) → Quiet trail (repo.get_recovery_job x)
  pub move_recovery_job-Quiet :
      (x : String) (y : String) (z : ℤ) (u : ℤ) → Quiet trail (repo.move_recovery_job x y z u)
  pub record_activation-Quiet : (x : ActivationInput) → Quiet trail (repo.record_activation x)
  pub create_dive_window-Quiet : (x : DiveWindowInput) → Quiet trail (repo.create_dive_window x)
  pub attach_recovery_jobs-Quiet :
      (x : String) (y : List String) → Quiet trail (repo.attach_recovery_jobs x y)
  pub change_dive_window-Quiet :
      (x : String) (y : String) (z : ℤ) → Quiet trail (repo.change_dive_window x y z)
  pub validate_report_target-Quiet :
      (x : String) (y : String) → Quiet trail (repo.validate_report_target x y)
  pub create_signal_recovery_report-Quiet :
      (x : SignalRecoveryReportInput) → Quiet trail (repo.create_signal_recovery_report x)
  pub report_task_id-Quiet : (x : String) → Quiet trail (repo.report_task_id x)
  pub review_report_record-Quiet :
      (x : String) (y : Bool) (z : ℤ) (u : ℤ) → Quiet trail (repo.review_report_record x y z u)
  pub create_integrity_incident-Quiet :
      (x : IntegrityIncidentInput) → Quiet trail (repo.create_integrity_incident x)
  pub close_integrity_incident-Quiet :
      (x : String) (y : ℤ) → Quiet trail (repo.close_integrity_incident x y)
  pub mark_integrity_incident-Quiet : (x : String) → Quiet trail (repo.mark_integrity_incident x)
  pub create_array_operator-Quiet : (x : ArrayOperator) → Quiet trail (repo.create_array_operator x)
  pub get_array_operator-Quiet : (x : String) → Quiet trail (repo.get_array_operator x)
  pub rename_array_operator-Quiet :
      (x : String) (y : String) → Quiet trail (repo.rename_array_operator x y)
  pub create_assignment-Quiet : (x : Assignment) → Quiet trail (repo.create_assignment x)
  pub advance_assignment-Quiet :
      (x : String) (y : String) (z : ℤ) → Quiet trail (repo.advance_assignment x y z)
