-- ===== src/Domain/Agreement.antt =====
-- Rules that the package states twice, and that agree.
use ufo_observation_command.Base.{
  ℤ, String, ◌==◌, eq_comm, eq_iff, ◌≡◌, refl, ap, ◌∙◌, Bool, true, false, ◌&&◌, ◌||◌, Option, none,
  some, List, any, get, string_key, succeeded, arith, if◌then◌else◌,
}
use ufo_observation_command.Domain.SurveyMission as Missions
use ufo_observation_command.Domain.SurveyMission.{SurveyMission}
use ufo_observation_command.Domain.RecoveryJob as Jobs
use ufo_observation_command.Domain.RecoveryJob.{RecoveryJob}
use ufo_observation_command.Domain.DiveWindow
use ufo_observation_command.Domain.Assignment as Assignments
use ufo_observation_command.Domain.Assignment.{Assignment}
use ufo_observation_command.Domain.Operator
use ufo_observation_command.Domain.Operator.{ArrayOperator}
use ufo_observation_command.Domain.StateMachine.{
  allows, default_survey_mission_machine, default_recovery_job_machine, default_dive_window_machine,
}

mission_machine_agrees :
    (s next : String) → allows default_survey_mission_machine s next ≡ Missions.can_move_to s next
unfolding allows default_survey_mission_machine Missions.can_move_to get
mission_machine_agrees s next = ground (
  arith,
  eq_comm "draft" s,
  eq_comm "scheduled" s,
  eq_comm "active" s,
  eq_comm "scheduled" next,
  eq_comm "active" next,
  eq_comm "closed" next,
)

window_machine_agrees :
    (s next : String) → allows default_dive_window_machine s next ≡ DiveWindow.can_move_to s next
unfolding allows default_dive_window_machine DiveWindow.can_move_to get
window_machine_agrees s next = ground (
  arith,
  eq_comm "queued" s,
  eq_comm "running" s,
  eq_comm "running" next,
  eq_comm "completed" next,
  eq_comm "cancelled" next,
)

job_machine_agrees :
    (s next : String) → allows default_recovery_job_machine s next ≡ Jobs.can_move_to s next
unfolding allows default_recovery_job_machine Jobs.can_move_to get
job_machine_agrees s next = ground (
  arith,
  eq_comm "queued" s,
  eq_comm "completed" s,
  eq_comm "activation_pending" s,
  eq_comm "accepted" s,
  eq_comm "in_progress" s,
  eq_comm "verified" s,
  eq_comm "rejected" s,
  eq_comm "completed" next,
  eq_comm "activation_pending" next,
  eq_comm "accepted" next,
  eq_comm "in_progress" next,
  eq_comm "verified" next,
  eq_comm "rejected" next,
  eq_comm "archived" next,
)

-- Each of the three default graphs allows exactly the moves that the status it is for allows.
pub machines_agree :
    (s next : String)
    → (allows default_survey_mission_machine s next ≡ Missions.can_move_to s next)
      × (allows default_recovery_job_machine s next ≡ Jobs.can_move_to s next)
      × (allows default_dive_window_machine s next ≡ DiveWindow.can_move_to s next)
machines_agree s next =
    (mission_machine_agrees s next, job_machine_agrees s next, window_machine_agrees s next)

any_if {ℓ} :
    {A : Type ℓ} (p : A → Bool) (b : Bool) (xs ys : List A)
    → any p (if b then xs else ys) ≡ (if b then any p xs else any p ys)
any_if p true xs ys = refl
any_if p false xs ys = refl

abbrev if_else : Bool → Bool → Bool → Bool
if_else b x y = if b then x else y

-- Whether the permissions of an operator hold one, as a test of the role.
has_by_role :
    (o : ArrayOperator) (p : String)
    → Operator.has o p ≡ (
        if o.role == Operator.buoy_operator
        then Operator.recovery_job_complete == p
        else if o.role == Operator.installation_operator
        then Operator.report_record == p
        else if o.role == Operator.quality_reviewer
        then Operator.report_review == p
        else if o.role == Operator.safety_supervisor
        then Operator.survey_mission_write == p
          || Operator.recovery_job_complete == p
          || Operator.report_record == p
          || Operator.report_review == p
          || Operator.integrity_incident_close == p
        else false)
unfolding Operator.has Operator.permissions
has_by_role o p =
    any_if (λ item. item == p) (o.role == Operator.buoy_operator) _ _
    ∙ ap (if_else (o.role == Operator.buoy_operator) _) (
        any_if (λ item. item == p) (o.role == Operator.installation_operator) _ _
        ∙ ap (if_else (o.role == Operator.installation_operator) _) (
            any_if (λ item. item == p) (o.role == Operator.quality_reviewer) _ _
            ∙ ap (if_else (o.role == Operator.quality_reviewer) _)
                (any_if (λ item. item == p) (o.role == Operator.safety_supervisor) _ _)))
    ∙ ground arith

clash : (s a b : String) → (a == b) ≡ false → ((s == a) && (s == b)) ≡ false
clash s a b different = ground (arith, eq_iff s a, eq_iff s b, eq_iff a b)

-- An operator has one role.
one_role :
    (o : ArrayOperator)
    → (((o.role == Operator.buoy_operator) && (o.role == Operator.installation_operator)) ≡ false)
      × (((o.role == Operator.buoy_operator) && (o.role == Operator.quality_reviewer)) ≡ false)
      × (((o.role == Operator.buoy_operator) && (o.role == Operator.safety_supervisor)) ≡ false)
      × (((o.role == Operator.installation_operator) && (o.role == Operator.quality_reviewer))
          ≡ false)
      × (((o.role == Operator.installation_operator) && (o.role == Operator.safety_supervisor))
          ≡ false)
      × (((o.role == Operator.quality_reviewer) && (o.role == Operator.safety_supervisor)) ≡ false)
one_role o = (
  clash o.role _ _ refl,
  clash o.role _ _ refl,
  clash o.role _ _ refl,
  clash o.role _ _ refl,
  clash o.role _ _ refl,
  clash o.role _ _ refl,
)

-- What an operator can do by action is what the permissions of the role say.
pub can-has :
    (o : ArrayOperator)
    → (Operator.can o "complete" ≡ Operator.has o Operator.recovery_job_complete)
      × (Operator.can o "record_signal_recovery_report" ≡ Operator.has o Operator.report_record)
      × (Operator.can o "review_signal_recovery_report" ≡ Operator.has o Operator.report_review)
      × (Operator.can o "archive" ≡ Operator.has o Operator.integrity_incident_close)
      × (Operator.can o "close_survey_mission" ≡ Operator.has o Operator.survey_mission_write)
unfolding Operator.can
can-has o = (
  ground (arith, has_by_role o Operator.recovery_job_complete, one_role o),
  ground (arith, has_by_role o Operator.report_record, one_role o),
  ground (arith, has_by_role o Operator.report_review, one_role o),
  ground (arith, has_by_role o Operator.integrity_incident_close, one_role o),
  ground (arith, has_by_role o Operator.survey_mission_write, one_role o),
)

masked : (b : Bool) {x y : Bool} → x ≡ y → (if b then x else false) ≡ (b && y)
masked true e = e
masked false e = refl

-- A report can be recorded by the operators with a name, an identifier and the permission.
pub record_needs_permission :
    (o : ArrayOperator)
    → Operator.can_record_signal_recovery_report o
      ≡ (succeeded (Operator.validate o) && Operator.has o Operator.report_record)
unfolding Operator.can_record_signal_recovery_report
record_needs_permission o =
    masked (succeeded (Operator.validate o))
      (ground (arith, has_by_role o Operator.report_record, one_role o))

-- Whether a list of sources, if there is one, has a status.
abbrev pub among : Option (List String) → String → Bool
among none status = false
among (some sources) status = any (λ s. s == status) sources

among_if :
    (b : Bool) (x y : Option (List String)) (status : String)
    → among (if b then x else y) status ≡ (if b then among x status else among y status)
among_if true x y status = refl
among_if false x y status = refl

among_lem :
    (next status : String)
    → among (Assignments.assignment_sources_for next) status ≡ (
        if next == "active"
        then "queued" == status
        else if next == "completed"
        then "active" == status
        else if next == "cancelled"
        then "queued" == status || "active" == status
        else false)
unfolding Assignments.assignment_sources_for
among_lem next status =
    among_if (next == "active") _ _ status
    ∙ ap (if_else (next == "active") _) (
        among_if (next == "completed") _ _ status
        ∙ ap (if_else (next == "completed") _) (among_if (next == "cancelled") _ _ status))
    ∙ ground arith

-- An assignment may move to a status exactly when its own is among the sources of that status.
pub sources_agree :
    (a : Assignment) (next : String)
    → Assignments.can_move_to a next ≡ among (Assignments.assignment_sources_for next) a.status
unfolding Assignments.can_move_to
sources_agree a next = ground (
  arith,
  among_lem next a.status,
  eq_comm "queued" a.status,
  eq_comm "active" a.status,
  clash a.status "queued" "active" refl,
  clash next "active" "completed" refl,
  clash next "active" "cancelled" refl,
  clash next "completed" "cancelled" refl,
)

-- The two tests of a mission's window are one test.
pub execution_agrees :
    (m : SurveyMission) (now : ℤ)
    → (Missions.survey_mission_execution_allowed m now ≡ Missions.can_execute_at m now)
unfolding Missions.survey_mission_execution_allowed Missions.can_execute_at
execution_agrees m now = ground arith

-- A job is eligible exactly when it can be performed.
pub eligible_agrees :
    (s : RecoveryJob) (now : ℤ)
    → Jobs.eligible_for_execution s.status s.expires_at now
      ≡ succeeded (Jobs.can_be_performed s now)
unfolding Jobs.eligible_for_execution Jobs.can_be_performed
eligible_agrees s now = ground arith
