-- ===== src/Repository/Windows.antt =====
-- internal/repository/postgres.go, business_checks.go and round.go: the statements on dive windows.
use ufo_observation_command.Base.{
  ℤ, pos, ◌+ℤ◌, ◌==ℤ◌, String, ◌==◌, Bool, true, false, not, ◌&&◌, ◌||◌, Option, none, some, List,
  any, all, map, Dict, get, string_key, if◌then◌else◌, wrap, sentinel, invalid_transition, refuse,
  Method,
}
use ufo_observation_command.Base.Methods.{◌>>=◌, ◌>>◌, return, fail, lift, map_error}
use ufo_observation_command.Domain.Errors.{conflict_error, transition_error}
use ufo_observation_command.Domain.RecoveryJob.{RecoveryJob}
use ufo_observation_command.Repository.Types.{DiveWindowInput}
use ufo_observation_command.Repository.Tables.{Tables, WindowRow, ReportRow, insert_row, update_row}
use ufo_observation_command.Repository.Driver.{
  Driver, World, select, insert, update, draw_id, server_time,
}

unfoldable pub insert_window : String → DiveWindowInput → Tables → Bool × Tables
unfolding insert_row
insert_window id input t =
    let rows : Bool × Dict String WindowRow = insert_row t.windows id record {
      code = input.code;
      status = "queued";
      method = input.method;
      capacity = input.capacity;
      started_at = none;
      completed_at = none;
      version = pos 1;
    } in
    (rows.0, record t { windows = rows.1 })

-- A report of the window, and a report of the window and the job.
unfoldable pub is_of_window : String → ReportRow → Bool
is_of_window id r = r.report.dive_window_id == id

unfoldable pub is_of_item : String → String → ReportRow → Bool
is_of_item window_id task_id r =
    r.report.dive_window_id == window_id && r.report.recovery_job_id == task_id

unfoldable pub is_attached : List (String × String) → String → String → Bool
is_attached items window_id task_id = any (λ item. item.0 == window_id && item.1 == task_id) items

-- The jobs of a window that are in progress are accepted again.
unfoldable pub restore_row : List (String × String) → String → String → RecoveryJob → RecoveryJob
unfolding is_attached
restore_row items window_id key s =
    if is_attached items window_id key && s.status == "in_progress"
    then record s { status = "accepted"; version = s.version +ℤ pos 1 }
    else s

abbrev pub restore_job :
    List (String × String) → String → String × RecoveryJob → String × RecoveryJob
restore_job items window_id entry = (entry.0, restore_row items window_id entry.0 entry.1)

-- The tables after the rows of windows, when the window was cancelled.
unfoldable pub restored : Bool × Dict String WindowRow → String → Tables → Bool × Tables
unfolding restore_row
restored (true, rows) id t =
    (true, record t { windows = rows; jobs = map (restore_job t.items id) t.jobs })
restored (false, rows) id t = (false, t)

unfoldable pub cancelled_rows : String → ℤ → ℤ → Tables → Bool × Dict String WindowRow
unfolding update_row is_of_window
cancelled_rows id version now t =
    update_row t.windows id
      (λ b.
        b.version ==ℤ version
        && (b.status == "queued" || b.status == "running")
        && not (any (λ entry. is_of_window id entry.1) t.reports))
      (λ b. record b {
        status = "cancelled";
        version = b.version +ℤ pos 1;
        completed_at = some now;
      })

unfoldable pub cancel_window : String → ℤ → ℤ → Tables → Bool × Tables
unfolding cancelled_rows restored
cancel_window id version now t = restored (cancelled_rows id version now t) id t

-- An item of a window whose reports are there and reviewed.
unfoldable pub is_reviewed : Dict String ReportRow → String → String → Bool
unfolding is_of_item
is_reviewed reports window_id task_id =
    any (λ entry. is_of_item window_id task_id entry.1) reports
    && all
        (λ entry. not (is_of_item window_id task_id entry.1) || not (entry.1.status == "pending"))
        reports

unfoldable pub all_reviewed : Tables → String → Bool
unfolding is_reviewed
all_reviewed t id = all (λ item. not (item.0 == id) || is_reviewed t.reports id item.1) t.items

unfoldable pub set_window : String → String → String → ℤ → ℤ → Tables → Bool × Tables
unfolding update_row all_reviewed
set_window source id status version now t =
    let rows : Bool × Dict String WindowRow =
      update_row t.windows id
        (λ b.
          b.version ==ℤ version
          && b.status == source
          && (not (status == "completed") || all_reviewed t id))
        (λ b. record b {
          status = status;
          version = b.version +ℤ pos 1;
          started_at = if status == "running" then some now else b.started_at;
          completed_at = if status == "completed" then some now else b.completed_at;
        }) in
    (rows.0, record t { windows = rows.1 })

-- The statuses of a job and of its window, when the job is attached to it.
unfoldable pub target_statuses : String → String → Tables → Option (String × String)
unfolding is_attached
target_statuses task_id window_id t =
    if is_attached t.items window_id task_id
    then elim (get t.jobs task_id) [
      | none ↦ none
      | some s ↦ elim (get t.windows window_id) [ none ↦ none | some b ↦ some (s.status, b.status) ]
    ]
    else none

module _ {D : Type 0} (sql : Driver D) where
  unfoldable pub create_dive_window : DiveWindowInput → Method (World D) String
  unfolding draw_id insert insert_window
  create_dive_window input = do id ← draw_id sql; insert sql (insert_window id input); return id

  unfoldable pub change_dive_window : String → String → ℤ → Method (World D) (Unit {0})
  unfolding update cancel_window set_window
  change_dive_window id status version = do
    now ← server_time sql
    if status == "cancelled"
        then update sql "cancel dive_window: %w" (cancel_window id version now)
        else if status == "running"
        then update sql "change dive_window: %w" (set_window "queued" id status version now)
        else if status == "completed"
        then update sql "change dive_window: %w" (set_window "running" id status version now)
        else fail (sentinel invalid_transition)

  -- The checks after the row of `ValidateSignalRecoveryReportTarget` is read.
  unfoldable pub check_target : Option (String × String) → Method (World D) (Unit {0})
  check_target none = fail (conflict_error "task is not attached to dive_window: %w")
  check_target (some statuses) = lift (
      refuse (not (statuses.0 == "in_progress") || not (statuses.1 == "running")) (
        transition_error
          "task and acoustic_buoy round are not ready for an signal_recovery_report: %w"))

  unfoldable pub validate_report_target : String → String → Method (World D) (Unit {0})
  unfolding select target_statuses check_target
  validate_report_target task_id window_id = do
    statuses ←
        map_error (wrap "validate signal_recovery_report target: %w")
          (select sql (target_statuses task_id window_id))
    check_target statuses
