-- ===== src/Repository/Statement/Slots.antt =====
-- internal/repository/postgres.go: no buoy counts more successes than it requires.
use ufo_observation_command.Base.{
  ℤ, pos, +ℤ_parts, ◌≤ℤ◌, ltb_ℤ, ◌==ℤ◌, String, ◌==◌, Bool, true, false, Option, none, some, List,
  [], ◌∷◌, Dict, get, string_key, All, All-put, Option-cases, Bool-cases, inl, inr, ◌&&◌, any,
  is_some, arith,
}
use ufo_observation_command.Domain.Validation.{AcousticBuoy}
use ufo_observation_command.Domain.RecoveryJob.{RecoveryJob}
use ufo_observation_command.Repository.Tables.{Tables, WindowRow, insert_row}
use ufo_observation_command.Repository.Missions
use ufo_observation_command.Repository.Jobs
use ufo_observation_command.Repository.Activation
use ufo_observation_command.Repository.Expiry
use ufo_observation_command.Repository.Windows
use ufo_observation_command.Repository.Reports
use ufo_observation_command.Repository.Statement.{Statement, execute, execute_all}

-- A row of `acoustic_buoys` that has not more successes than it requires.
abbrev pub IsWithin : String × AcousticBuoy → Type 0
IsWithin entry = entry.1.completed ≤ℤ entry.1.required_successes

abbrev pub Slots : Tables → Type 0
Slots t = All IsWithin t.buoys

-- The required successes of a new buoy are positive, as its CHECK says.
abbrev pub IsPositive : Statement → Type 0
IsPositive s = elim s [
  | Statement.insert_buoy id input ↦ pos 1 ≤ℤ input.required_successes
  | _ ↦ Unit
]

module _ {V : Type 0} (P : String × V → Type 0) where
  insert_row-All :
      (rows : Dict String V) (id : String) (row : V)
      → P (id, row)
      → All P rows
      → All P (insert_row rows id row).1
  unfolding insert_row
  insert_row-All rows id row p h = elim (Bool-cases (is_some (get rows id))) [
    | inl e ↦ rw e h
    | inr e ↦ rw e (All-put P rows id row p h)
  ]

complete_job_at-Slots :
    (id status : String) (version now : ℤ) (s : RecoveryJob) (b : Option AcousticBuoy) (t : Tables)
    → Slots t
    → Slots (Jobs.complete_job_at id status version now s b t).1
unfolding Jobs.complete_job_at
complete_job_at-Slots id status version now s none t h = h
complete_job_at-Slots id status version now s (some b) t h =
    elim (Bool-cases (ltb_ℤ b.completed b.required_successes && s.version ==ℤ version)) [
      | inl e ↦ rw e (
          All-put IsWithin t.buoys s.acoustic_buoy_id _
            (ground (arith, +ℤ_parts b.completed (pos 1))) h)
      | inr e ↦ rw e h
    ]

restored-Slots :
    (rows : Bool × Dict String WindowRow) (id : String) (t : Tables)
    → Slots t
    → Slots (Windows.restored rows id t).1
unfolding Windows.restored
restored-Slots (true, rows) id t h = h
restored-Slots (false, rows) id t h = h

execute-Slots :
    (statement : Statement) (t : Tables)
    → IsPositive statement
    → Slots t
    → Slots (execute statement t).1
unfolding execute Missions.insert_mission Missions.set_mission Missions.insert_buoy
    Missions.insert_operator Missions.insert_assignment Missions.set_assignment Missions.set_name
    Missions.set_role Activation.activate_rows Expiry.expire_job Jobs.insert_job Jobs.set_job
    Jobs.complete_job Jobs.insert_mooring Jobs.insert_item Jobs.start_job Windows.insert_window
    Windows.cancel_window Windows.set_window Reports.insert_report Reports.review_report
    Reports.insert_incident Reports.close_incident Reports.mark_incident Reports.insert_audit
execute-Slots (Statement.insert_mission m) t p h = h
execute-Slots (Statement.set_mission id status version) t p h = h
execute-Slots (Statement.insert_buoy id input) t p h =
    insert_row-All IsWithin t.buoys id _ (ground arith) h
execute-Slots (Statement.insert_operator o) t p h = h
execute-Slots (Statement.insert_assignment a) t p h = h
execute-Slots (Statement.set_assignment sources id next version) t p h = h
execute-Slots (Statement.set_name id name) t p h = h
execute-Slots (Statement.set_role id role) t p h = h
execute-Slots (Statement.activate_rows locked now limit) t p h = h
execute-Slots (Statement.insert_job id input) t p h = h
execute-Slots (Statement.set_job id status version now) t p h = h
execute-Slots (Statement.complete_job id status version now) t p h =
    elim (Option-cases (get t.jobs id)) [
      | inl e ↦ rw (Jobs.complete_job, e) h
      | inr (s, e) ↦
          rw (Jobs.complete_job, e)
            (complete_job_at-Slots id status version now s (get t.buoys s.acoustic_buoy_id) t h)
    ]
execute-Slots (Statement.insert_mooring id input) t p h = h
execute-Slots (Statement.insert_item window_id task_id) t p h =
    elim (Bool-cases (any (λ item. item.0 == window_id && item.1 == task_id) t.items)) [
      | inl e ↦ rw e h
      | inr e ↦ rw e h
    ]
execute-Slots (Statement.start_job id now) t p h = h
execute-Slots (Statement.expire_job id) t p h = h
execute-Slots (Statement.insert_window id input) t p h = h
execute-Slots (Statement.cancel_window id version now) t p h =
    restored-Slots (Windows.cancelled_rows id version now t) id t h
execute-Slots (Statement.set_window source id status version now) t p h = h
execute-Slots (Statement.insert_report id input) t p h = h
execute-Slots (Statement.review_report id accepted version now) t p h = h
execute-Slots (Statement.insert_incident id input) t p h = h
execute-Slots (Statement.close_incident id now) t p h = h
execute-Slots (Statement.mark_incident id) t p h = h
execute-Slots (Statement.insert_audit event) t p h = h

-- Whatever statements of `Statement` run, in whatever order, no buoy counts more successes than it
-- requires, from tables where none does and when each new buoy requires one at least.
pub execute_all-Slots :
    (statements : List Statement) (t : Tables)
    → All IsPositive statements
    → Slots t
    → Slots (execute_all statements t)
unfolding execute_all
execute_all-Slots [] t p h = h
execute_all-Slots (s ∷ statements) t p h =
    execute_all-Slots statements (execute s t).1 p.1 (execute-Slots s t p.0 h)
