-- ===== src/Worker/Background.antt =====
-- internal/worker: the loops of the background jobs and what a round of each does. A round's logging
-- is left out.
pub mod Expiry
use ufo_observation_command.Base.{
  ℕ, ℤ, pos, leb_ℤ, Bool, true, false, not, ◌&&◌, Option, none, some, is_some, List, [], ◌∷◌,
  length, if◌then◌else◌, Error, plain, Result, ok, err, Method,
}
use ufo_observation_command.Domain.RecoveryJob.{RecoveryJob}
use ufo_observation_command.Repository.Expiry.{ReconcileResult}
use ufo_observation_command.Worker.Metrics.{Metrics, record_run, record_failure, record_due}

-- `time.Minute` or `time.Hour` in place of an interval that is not positive.
unfoldable pub interval_or : ℤ → ℤ → ℤ
interval_or fallback interval = if leb_ℤ interval (pos 0) then fallback else interval

-- What became of a loop: it returned an error, or it waits for a tick.
pub data Loop (S : Type 0) : Type 0 where
  ended : Error → S → Loop S
  waiting : S → Loop S

module _ {S : Type 0} (ctx_err : S → Option Error) (round : S → Option Error × S) where
  -- `for { if ctx.Err() … ; round; select { ctx.Done() | tick } }`. The list has what ends each
  -- `select`, the error of the context or `none` for a tick. A round that gives an error ends the loop.
  unfoldable pub run_loop : List (Option Error) → S → Loop S
  run_loop [] s = elim (ctx_err s) [
    | some e ↦ ended e s
    | none ↦ elim (round s).0 [ some e ↦ ended e (round s).1 | none ↦ waiting (round s).1 ]
  ]
  run_loop (some stopped ∷ waits) s = elim (ctx_err s) [
    | some e ↦ ended e s
    | none ↦ elim (round s).0 [ some e ↦ ended e (round s).1 | none ↦ ended stopped (round s).1 ]
  ]
  run_loop (none ∷ waits) s = elim (ctx_err s) [
    | some e ↦ ended e s
    | none ↦ elim (round s).0 [ some e ↦ ended e (round s).1 | none ↦ run_loop waits (round s).1 ]
  ]

module _ {W : Type 0} (ctx_err : W → Option Error) where
  -- Periodic and ReportWorker: the error of a round is logged. A nil reconciler is `none`.
  unfoldable pub periodic_round : Option (W → Option Error × W) → W → Option Error × W
  periodic_round none w = (none, w)
  periodic_round (some reconcile) w = (none, (reconcile w).1)

  unfoldable pub periodic_run : Option (W → Option Error × W) → List (Option Error) → W → Loop W
  unfolding periodic_round run_loop
  periodic_run reconcile = run_loop ctx_err (periodic_round reconcile)

  -- IntegrityIncidentWorker: a nil service ends the loop.
  unfoldable pub incident_round : Option (W → Option Error × W) → W → Option Error × W
  incident_round none w = (some (plain "safety_alert service is nil"), w)
  incident_round (some due_incidents) w = (none, (due_incidents w).1)

  unfoldable pub incident_run : Option (W → Option Error × W) → List (Option Error) → W → Loop W
  unfolding incident_round run_loop
  incident_run due_incidents = run_loop ctx_err (incident_round due_incidents)

  -- AssignmentWorker: what ActivateDue returned is counted, an error only while the context lives.
  unfoldable pub count_activation : ℤ × Option Error → Option Error → Metrics → Metrics
  unfolding record_run record_failure record_due
  count_activation (count, none) stopped m = record_due count (record_run m)
  count_activation (count, some e) none m = record_failure (record_run m)
  count_activation (count, some e) (some stopped) m = record_due count (record_run m)

  unfoldable pub assignment_round :
      Option (W → (ℤ × Option Error) × W) → W × Metrics → Option Error × (W × Metrics)
  unfolding count_activation
  assignment_round none (w, m) = (none, (w, m))
  assignment_round (some activate_due) (w, m) =
      let (answer, w') = activate_due w in (none, (w', count_activation answer (ctx_err w') m))

  unfoldable pub assignment_run :
      Option (W → (ℤ × Option Error) × W) → List (Option Error) → W × Metrics → Loop (W × Metrics)
  unfolding assignment_round run_loop
  assignment_run activate_due = run_loop (λ (w, m). ctx_err w) (assignment_round activate_due)

  -- ExpirationReconciler.Reconcile. A nil source is `none`.
  unfoldable pub count_marked : Result ReconcileResult × W → Metrics → Option Error × W × Metrics
  unfolding record_run record_failure record_due
  count_marked (err e, w) m = (some e, w, record_failure m)
  count_marked (ok result, w) m = (none, w, record_due (pos result.marked) m)

  unfoldable pub reconcile_expired :
      Option (ℤ → ℤ → Method W ReconcileResult) → ℤ → W → Metrics → Option Error × W × Metrics
  unfolding count_marked
  reconcile_expired source now w m = elim (ctx_err w) [
    | some e ↦ (some e, w, m)
    | none ↦ elim source [
      | none ↦ (some (plain "expiration source is nil"), w, m)
      | some mark ↦ count_marked (mark now (pos 100) w) (record_run m)
    ]
  ]

  -- RecoveryJobExpiryReconciler.Reconcile.
  unfoldable pub count_expiring :
      Result (List RecoveryJob) × W → Metrics → Option Error × W × Metrics
  unfolding record_run record_failure record_due
  count_expiring (err e, w) m = (some e, w, record_failure m)
  count_expiring (ok items, w) m = (none, w, record_due (pos (length items)) m)

  unfoldable pub reconcile_expiring :
      Option (ℤ → ℤ → Method W (List RecoveryJob)) → ℤ → W → Metrics → Option Error × W × Metrics
  unfolding count_expiring
  reconcile_expiring source now w m = elim (ctx_err w) [
    | some e ↦ (some e, w, m)
    | none ↦ elim source [
      | none ↦ (some (plain "task expiry repository is nil"), w, m)
      | some expiring ↦ count_expiring (expiring now (pos 100) w) (record_run m)
    ]
  ]
