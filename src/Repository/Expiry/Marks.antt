-- ===== src/Repository/Expiry/Marks.antt =====
-- internal/repository/reconcile.go: what a reconciliation that succeeds has written.
use ufo_observation_command.Base.{
  ℕ, ◌+◌, ℤ, String, string_key, Bool, true, some, List, [], ◌∷◌, length, All, Distinct, get, put,
  get-put_self, get-put_ne, ◌≡◌, ◌≢◌, refl, sym, ap, subst, ◌∙◌, ok, ok-injective, if◌then◌else◌,
  arith, ◌≤◌, ◌<◌, pos, pos_part, ltb_ℤ, ◌||◌,
}
use ufo_observation_command.Base.Methods.{bind-ok, map_error-ok}
use ufo_observation_command.Domain.RecoveryJob.{RecoveryJob}
use ufo_observation_command.Domain.Distinct.{NoRepeats}
use ufo_observation_command.Repository.Types.{AuditInput}
use ufo_observation_command.Repository.Tables.{Tables}
use ufo_observation_command.Repository.Tables.Rows.{update_found}
use ufo_observation_command.Repository.Driver.{Driver, World, select, draw_id}
use ufo_observation_command.Repository.Driver.Outcomes.{
  statement-ok, select-ok, draw_id-ok, transaction-ok,
}
use ufo_observation_command.Repository.Reports.{insert_audit}
use ufo_observation_command.Repository.Expiry.{
  ReconcileResult, is_open, rejected, due_ids, expire_job, expiry_event, count_expired, mark_all,
  mark_due, mark_expired_recovery_jobs,
}
use ufo_observation_command.Repository.Expiry.Complete.{due_ids_complete}
use ufo_observation_command.Repository.Expiry.Selection.{
  Due, due_ids-Due, due_ids-NoRepeats, length-due_ids,
}

abbrev with_marked : ReconcileResult → ℕ → ReconcileResult
with_marked r n = record r { marked = n }

abbrev Open : Tables → String → Type 0
Open t id = (s : RecoveryJob) × (get t.jobs id ≡ some s) × (is_open s ≡ true)

-- The tables after one job was rejected, with its audit event.
abbrev one_marked : Tables → String → RecoveryJob → Tables
one_marked t id s = record t {
  jobs = put t.jobs id (rejected s);
  audits = expiry_event id ∷ t.audits;
}

-- The tables after the jobs were rejected, one after the other.
abbrev Marks : List String → Tables → Tables → Type 0
Marks [] t t' = t' ≡ t
Marks (id ∷ ids) t t' =
    (s : RecoveryJob) × (get t.jobs id ≡ some s) × Marks ids (one_marked t id s) t'

expire_job-open :
    (t : Tables) (id : String) (s : RecoveryJob)
    → get t.jobs id ≡ some s
    → is_open s ≡ true
    → expire_job id t ≡ (true, record t { jobs = put t.jobs id (rejected s) })
unfolding expire_job
expire_job-open t id s e o =
    ap (λ rows. (rows.0, record t { jobs = rows.1 }))
      (update_found t.jobs id is_open rejected s e ∙ rw o refl)

Open-kept :
    (t : Tables) (id : String) (s : RecoveryJob) (ids : List String)
    → All (λ x. id ≢ x) ids
    → All (Open t) ids
    → All (Open (one_marked t id s)) ids
Open-kept t id s [] n h = tt
Open-kept t id s (x ∷ ids) n h =
    ((h.0.0, get-put_ne t.jobs id (rejected s) x n.0 ∙ h.0.1, h.0.2), Open-kept t id s ids n.1 h.1)

module _ {D : Type 0} (sql : Driver D) where
  count_expired-ok :
      (id : String) (result result' : ReconcileResult) (w w' : World D)
      → count_expired sql id result true w ≡ (ok result', w')
      → (result' ≡ record result { marked = result.marked + 1 })
        × (w'.tables ≡ (insert_audit (expiry_event id) w.tables).1)
  unfolding count_expired
  count_expired-ok id result result' w w' h =
      let (event_id, u, e, k) = bind-ok (draw_id sql) _ h in
      let (written, v, f, g) = bind-ok _ _ k in
      let (p, q) = statement-ok sql (insert_audit (expiry_event id)) u v (map_error-ok _ _ f) in
      (
        sym (ok-injective (ap (λ x. x.0) g)),
        ap (λ x. x.1.tables) (sym g)
            ∙ q
            ∙ ap (λ t. (insert_audit (expiry_event id) t).1) (draw_id-ok sql w u e),
      )

  mark_all-ok :
      (ids : List String) (result result' : ReconcileResult) (w w' : World D)
      → NoRepeats ids
      → All (Open w.tables) ids
      → mark_all sql ids result w ≡ (ok result', w')
      → (result' ≡ record result { marked = result.marked + length ids })
        × Marks ids w.tables w'.tables
  unfolding mark_all insert_audit
  mark_all-ok [] result result' w w' n o h = (
    sym (ok-injective (ap (λ x. x.0) h)) ∙ ap (with_marked result) (omega arith),
    ap (λ x. x.1.tables) (sym h),
  )
  mark_all-ok (id ∷ ids) result result' w w' n o h =
      let (s, found, open_s) = o.0 in
      let marked = expire_job-open w.tables id s found open_s in
      let (updated, u, e, k) = bind-ok _ _ h in
      let (p, q) = statement-ok sql (expire_job id) w u (map_error-ok _ _ e) in
      let (counted, v, f, g) = bind-ok _ _ k in
      let (a, b) = count_expired-ok id result counted u v (
        subst (λ x. count_expired sql id result x u ≡ (ok counted, v))
          (sym p ∙ ap (λ x. x.0) marked) f) in
      let same : v.tables ≡ one_marked w.tables id s =
        b ∙ ap (λ t. (insert_audit (expiry_event id) t).1) (q ∙ ap (λ x. x.1) marked) in
      let (c, m) =
        mark_all-ok ids counted result' v w' n.1
          (subst (λ t. All (Open t) ids) (sym same) (Open-kept w.tables id s ids n.0 o.1)) g in
      (
        c
            ∙ ap (λ r. with_marked r (r.marked + length ids)) a
            ∙ ap (with_marked result) (omega arith),
        (s, found, subst (λ t. Marks ids t w'.tables) same m),
      )

-- The events of the jobs, the last one first, on top of what was there.
abbrev pub expiry_events : List String → List AuditInput → List AuditInput
expiry_events [] trail = trail
expiry_events (id ∷ ids) trail = expiry_events ids (expiry_event id ∷ trail)

Marks-audits :
    (ids : List String) (t t' : Tables) → Marks ids t t' → t'.audits ≡ expiry_events ids t.audits
Marks-audits [] t t' m = ap (λ t. t.audits) m
Marks-audits (id ∷ ids) t t' m = Marks-audits ids (one_marked t id m.0) t' m.2

Marks-others :
    (ids : List String) (t t' : Tables) (k : String)
    → Marks ids t t'
    → All (λ x. x ≢ k) ids
    → get t'.jobs k ≡ get t.jobs k
Marks-others [] t t' k m n = ap (λ t. get t.jobs k) m
Marks-others (id ∷ ids) t t' k m n =
    Marks-others ids (one_marked t id m.0) t' k m.2 n.1 ∙ get-put_ne t.jobs id (rejected m.0) k n.0

-- A job that was there, rejected at the next version.
abbrev pub Rejected : Tables → Tables → String → Type 0
Rejected t t' id =
    (s : RecoveryJob) × (get t.jobs id ≡ some s) × (get t'.jobs id ≡ some (rejected s))

flip : (id : String) (ids : List String) → All (λ x. id ≢ x) ids → All (λ x. x ≢ id) ids
flip id [] h = tt
flip id (x ∷ ids) h = ((λ e. h.0 (sym e)), flip id ids h.1)

Rejected-before :
    (t t' : Tables) (id : String) (s : RecoveryJob) (ids : List String)
    → All (λ x. id ≢ x) ids
    → All (Rejected (one_marked t id s) t') ids
    → All (Rejected t t') ids
Rejected-before t t' id s [] n h = tt
Rejected-before t t' id s (x ∷ ids) n h = (
  (h.0.0, sym (get-put_ne t.jobs id (rejected s) x n.0) ∙ h.0.1, h.0.2),
  Rejected-before t t' id s ids n.1 h.1,
)

Marks-Rejected :
    (ids : List String) (t t' : Tables) → NoRepeats ids → Marks ids t t' → All (Rejected t t') ids
Marks-Rejected [] t t' n m = tt
Marks-Rejected (id ∷ ids) t t' n m =
    let s = m.0 in
    (
      (
        s,
        m.1,
        Marks-others ids (one_marked t id s) t' id m.2 (flip id ids n.0)
            ∙ get-put_self t.jobs id (rejected s),
      ),
      Rejected-before t t' id s ids n.0 (Marks-Rejected ids (one_marked t id s) t' n.1 m.2),
    )

abbrev all_marked : ℕ → ReconcileResult
all_marked n = record { scanned = n; marked = n; failed = 0 }

Open-Due :
    (locked : String → Bool) (now : ℤ) (t : Tables) (ids : List String)
    → All (Due locked now t) ids
    → All (Open t) ids
Open-Due locked now t [] h = tt
Open-Due locked now t (id ∷ ids) h = ((h.0.0, h.0.1, h.0.2), Open-Due locked now t ids h.1)

-- What was done when some jobs were marked, `limit` of them at most.
pub record Reconciled (locked : String → Bool) (now : ℤ) (limit : ℕ) (t t' : Tables)
    (result : ReconcileResult) : Type 0 where
  pub ids : List String
  pub counted : result ≡ record { scanned = length ids; marked = length ids; failed = 0 }
  pub within : length ids ≤ limit
  pub once : NoRepeats ids
  pub due : All (Due locked now t) ids
  pub complete : length ids < limit → (k : String) → Due locked now t k → ¬ All (λ x. x ≢ k) ids
  pub rejects : All (Rejected t t') ids
  pub others : (k : String) → All (λ x. x ≢ k) ids → get t'.jobs k ≡ get t.jobs k
  pub logged : t'.audits ≡ expiry_events ids t.audits

module _ {D : Type 0} (sql : Driver D) (locked : String → Bool) (now : ℤ) where
  mark_due-ok :
      (limit : ℕ) (result : ReconcileResult) (w w' : World D)
      → Distinct w.tables.jobs
      → mark_due sql locked now limit w ≡ (ok result, w')
      → Reconciled locked now limit w.tables w'.tables result
  unfolding mark_due
  mark_due-ok limit result w w' distinct h =
      let (ids, u, e, k) = bind-ok _ _ h in
      let (p, q) = select-ok sql (due_ids locked now limit) w u (map_error-ok _ _ e) in
      let (_, v, f, g) = bind-ok (select sql (λ t. tt)) _ k in
      let (_, r) = select-ok sql (λ t. tt) u v f in
      let same : v.tables ≡ w.tables = r ∙ q in
      let due : All (Due locked now w.tables) ids =
        subst (All (Due locked now w.tables)) p (due_ids-Due locked now limit w.tables distinct) in
      let once : NoRepeats ids =
        subst NoRepeats p (due_ids-NoRepeats locked now limit w.tables distinct) in
      let (c, m) =
        mark_all-ok sql ids (record { scanned = length ids; marked = 0; failed = 0 }) result v w'
          once (subst (λ t. All (Open t) ids) (sym same) (Open-Due locked now w.tables ids due))
          g in
      let marks : Marks ids w.tables w'.tables = subst (λ t. Marks ids t w'.tables) same m in
      record {
        ids = ids;
        counted = c ∙ ap (with_marked (all_marked (length ids))) (omega arith);
        within =
            subst (λ x. length x ≤ limit) p (length-due_ids locked now limit w.tables distinct);
        once = once;
        due = due;
        complete =
            subst
              (λ x.
                length x < limit → (k : String) → Due locked now w.tables k → ¬ All (λ y. y ≢ k) x)
              p (λ few key d none_of. due_ids_complete locked now limit w.tables key few d none_of);
        rejects = Marks-Rejected ids w.tables w'.tables once marks;
        others = λ key n. Marks-others ids w.tables w'.tables key marks n;
        logged = Marks-audits ids w.tables w'.tables marks;
      }

  abbrev pub limit_of : ℤ → ℕ
  limit_of limit =
      pos_part (if ltb_ℤ limit (pos 1) || ltb_ℤ (pos 500) limit then pos 100 else limit)

  -- A MarkExpiredRecoveryJobs that succeeds has rejected, each once and each at its next version, some
  -- open jobs whose time is over and whose locks are free, as many as it reports and not more than
  -- the limit; it has left every other job as it was and logged one event for each, in their order.
  -- Where it has marked fewer than the limit, no job that was due is left out.
  pub mark_expired_recovery_jobs_lem :
      (limit : ℤ) (result : ReconcileResult) (w w' : World D)
      → Distinct w.tables.jobs
      → mark_expired_recovery_jobs sql locked now limit w ≡ (ok result, w')
      → Reconciled locked now (limit_of limit) w.tables w'.tables result
  unfolding mark_expired_recovery_jobs
  mark_expired_recovery_jobs_lem limit result w w' distinct h =
      let (u, v, a, b, c) =
        transaction-ok sql _ _ (mark_due sql locked now (limit_of limit)) w w' h in
      subst (λ t. Reconciled locked now (limit_of limit) t w'.tables result) a
        (subst (λ t. Reconciled locked now (limit_of limit) u.tables t result) (sym c)
          (mark_due-ok (limit_of limit) result u v (subst (λ t. Distinct t.jobs) (sym a) distinct)
            b))
