-- ===== src/Worker/Background/Expiry.antt =====
-- internal/worker/expiration_reconciler.go over internal/repository/reconcile.go.
use ufo_observation_command.Base.{
  ℤ, pos, String, string_key, Bool, Option, none, some, Distinct, ◌≡◌, sym, ap, Error, Result, ok,
  err, Option-cases, inl, inr, arith,
}
use ufo_observation_command.Repository.Driver.{Driver, World}
use ufo_observation_command.Repository.Expiry.{ReconcileResult, mark_expired_recovery_jobs}
use ufo_observation_command.Repository.Expiry.Marks.{Reconciled, mark_expired_recovery_jobs_lem}
use ufo_observation_command.Worker.Metrics.{Metrics, record_run, record_due}
use ufo_observation_command.Worker.Background.{count_marked, reconcile_expired}

module _ {D : Type 0} (sql : Driver D) (locked : String → Bool)
    (ctx_err : World D → Option Error) where
  count_marked-none :
      (x : Result ReconcileResult × World D) (m m' : Metrics) (w' : World D)
      → count_marked ctx_err x m ≡ (none, w', m')
      → (result : ReconcileResult) × (x ≡ (ok result, w')) × (m' ≡ record_due (pos result.marked) m)
  unfolding count_marked
  count_marked-none (err e, w) m m' w' h = absurd (ground arith)
  count_marked-none (ok result, w) m m' w' h =
      (result, ap (λ r. (ok result, r.1)) h, ap (λ r. r.2) (sym h))

  -- A Reconcile that returns nil, over the repository: the jobs it has counted as due are those that
  -- it has rejected, at most 100 of them, as MarkExpiredRecoveryJobs does.
  pub reconcile_expired_lem :
      (now : ℤ) (w w' : World D) (m m' : Metrics)
      → Distinct w.tables.jobs
      → reconcile_expired ctx_err (some (mark_expired_recovery_jobs sql locked)) now w m
        ≡ (none, w', m')
      → (result : ReconcileResult) × Reconciled locked now 100 w.tables w'.tables result
        × (m' ≡ record_due (pos result.marked) (record_run m))
  unfolding reconcile_expired
  reconcile_expired_lem now w w' m m' distinct h = elim (Option-cases (ctx_err w)) [
    | inr (e, c) ↦ absurd (ground arith)
    | inl c ↦
        let (result, marks, counted) =
          count_marked-none (mark_expired_recovery_jobs sql locked now (pos 100) w) (record_run m)
            m' w' (rw (c, reconcile_expired) at h) in
        (
          result,
          mark_expired_recovery_jobs_lem sql locked now (pos 100) result w w' distinct marks,
          counted,
        )
  ]
