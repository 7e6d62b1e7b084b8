-- ===== src/Repository/Expiry.antt =====
-- internal/repository/reconcile.go: jobs whose time is over are rejected.
pub mod Selection
pub mod Complete
pub mod Marks
use ufo_observation_command.Base.{
  ℕ, ◌+◌, ℤ, pos, ◌+ℤ◌, ltb_ℤ, leb_ℤ, pos_part, String, ◌==◌, string_key, Bool, true, false, not,
  ◌&&◌, ◌||◌, none, List, [], ◌∷◌, take, map, keep, length, Dict, if◌then◌else◌, wrap, Method,
}
use ufo_observation_command.Base.Methods.{◌>>=◌, ◌>>◌, return, map_error}
use ufo_observation_command.Domain.RecoveryJob.{RecoveryJob}
use ufo_observation_command.Repository.Types.{AuditInput}
use ufo_observation_command.Repository.Tables.{Tables, update_row}
use ufo_observation_command.Repository.Driver.{
  Driver, World, statement, select, draw_id, transaction,
}
use ufo_observation_command.Repository.Reports.{insert_audit}

pub record ReconcileResult : Type 0 where
  pub scanned : ℕ
  pub marked : ℕ
  pub failed : ℕ

abbrev pub is_open : RecoveryJob → Bool
is_open s =
    s.status == "queued"
    || s.status == "completed"
    || s.status == "activation_pending"
    || s.status == "accepted"
    || s.status == "in_progress"

-- `ORDER BY expires_at`.
abbrev pub insert_by_expiry :
    String × RecoveryJob → List (String × RecoveryJob) → List (String × RecoveryJob)
insert_by_expiry row [] = row ∷ []
insert_by_expiry row (other ∷ rest) =
    let later : List (String × RecoveryJob) = insert_by_expiry row rest in
    if ltb_ℤ other.1.expires_at row.1.expires_at then other ∷ later else row ∷ other ∷ rest

unfoldable pub by_expiry : List (String × RecoveryJob) → List (String × RecoveryJob)
by_expiry [] = []
by_expiry (row ∷ rows) = insert_by_expiry row (by_expiry rows)

-- The rows of the SELECT before its ORDER BY; other transactions hold the locks of some.
abbrev pub is_due : (String → Bool) → ℤ → String × RecoveryJob → Bool
is_due locked now row = is_open row.1 && ltb_ℤ row.1.expires_at now && not (locked row.0)

unfoldable pub due_ids : (String → Bool) → ℤ → ℕ → Tables → List String
unfolding by_expiry
due_ids locked now limit t =
    map (λ row. row.0) (take limit (by_expiry (keep (is_due locked now) t.jobs)))

-- The UPDATE of one job.
abbrev pub rejected : RecoveryJob → RecoveryJob
rejected s = record s { status = "rejected"; version = s.version +ℤ pos 1 }

unfoldable pub expire_job : String → Tables → Bool × Tables
unfolding update_row
expire_job id t =
    let rows : Bool × Dict String RecoveryJob = update_row t.jobs id is_open rejected in
    (rows.0, record t { jobs = rows.1 })

abbrev pub expiry_event : String → AuditInput
expiry_event id = record {
  request_id = "worker:task-expiration";
  array_operator_id = none;
  object_type = "task";
  object_id = id;
  action = "expire";
  outcome = "success";
  detail = "{}";
}

module _ {D : Type 0} (sql : Driver D) where
  -- What follows the UPDATE of a job: the audit event, when it affected a row.
  unfoldable pub count_expired : String → ReconcileResult → Bool → Method (World D) ReconcileResult
  unfolding draw_id statement insert_audit
  count_expired id result false = return (record result { failed = result.failed + 1 })
  count_expired id result true = do
    event_id ← draw_id sql
    written ←
        map_error (wrap "audit expired task %s: %w")
          (statement sql (insert_audit (expiry_event id)))
    return (record result { marked = result.marked + 1 })

  unfoldable pub mark_all : List String → ReconcileResult → Method (World D) ReconcileResult
  unfolding statement expire_job count_expired
  mark_all [] result = return result
  mark_all (id ∷ ids) result = do
    updated ← map_error (wrap "mark task %s expired: %w") (statement sql (expire_job id))
    counted ← count_expired id result updated
    mark_all ids counted

  -- The function of the transaction. Reading the rows can fail after the query has succeeded.
  unfoldable pub mark_due : (String → Bool) → ℤ → ℕ → Method (World D) ReconcileResult
  unfolding select due_ids mark_all
  mark_due locked now limit = do
    ids ←
        map_error (wrap "select expired recovery_jobs: %w") (select sql (due_ids locked now limit))
    select sql (λ t. tt)
    mark_all ids (record { scanned = length ids; marked = 0; failed = 0 })

  unfoldable pub mark_expired_recovery_jobs :
      (String → Bool) → ℤ → ℤ → Method (World D) ReconcileResult
  unfolding transaction mark_due
  mark_expired_recovery_jobs locked now limit =
      transaction sql "begin expired task reconciliation: %w"
        "commit expired task reconciliation: %w"
        (mark_due locked now
          (pos_part (if ltb_ℤ limit (pos 1) || ltb_ℤ (pos 500) limit then pos 100 else limit)))
