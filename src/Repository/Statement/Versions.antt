-- ===== src/Repository/Statement/Versions.antt =====
-- internal/repository/postgres.go: a version of a recovery job that an update has used up.
use ufo_observation_command.Base.{
  ℤ, pos, +ℤ_parts, ◌≤ℤ◌, ◌<ℤ◌, ◌==ℤ◌, ltb_ℤ, String, ◌==◌, Bool, true, false, Option, none, some,
  List, [], ◌∷◌, map, any, Dict, get, put, get-put, get-put_self, string_key, ◌≡◌, refl, sym, subst,
  ap, ◌∙◌, Option-cases, Bool-cases, inl, inr, ◌&&◌, arith,
}
use ufo_observation_command.Domain.Validation.{AcousticBuoy}
use ufo_observation_command.Domain.RecoveryJob.{RecoveryJob}
use ufo_observation_command.Repository.Tables.{Tables, WindowRow, insert_row, update_row}
use ufo_observation_command.Repository.Tables.Rows.{update_row-ok, update_row_refused}
use ufo_observation_command.Repository.Missions
use ufo_observation_command.Repository.Jobs
use ufo_observation_command.Repository.Activation
use ufo_observation_command.Repository.Expiry
use ufo_observation_command.Repository.Windows
use ufo_observation_command.Repository.Reports
use ufo_observation_command.Repository.Statement.{Statement, execute, execute_all}

-- A job whose version is past `v`.
abbrev HasPassed : ℤ → Option RecoveryJob → Type 0
HasPassed v none = ⊥
HasPassed v (some s) = v <ℤ s.version

module _ (v : ℤ) (id : String) where
  put-HasPassed :
      (rows : Dict String RecoveryJob) (key : String) (s s' : RecoveryJob)
      → get rows key ≡ some s
      → s.version ≤ℤ s'.version
      → HasPassed v (get rows id)
      → HasPassed v (get (put rows key s') id)
  put-HasPassed rows key s s' e le h = elim (Bool-cases (string_key.beq key id)) [
    | inl b ↦ subst (HasPassed v) (sym (get-put rows key s' id)) (rw b (later_version (found_at b)))
    | inr b ↦ subst (HasPassed v) (sym (get-put rows key s' id)) (rw b h)
  ]
    where
      found_at : (string_key.beq key id) ≡ true → get rows id ≡ some s
      found_at b = subst (λ k. get rows k ≡ some s) ((string_key.beq_iff key id).0 b) e

      later_version : get rows id ≡ some s → v <ℤ s'.version
      later_version f = let p : v <ℤ s.version = subst (HasPassed v) f h in omega (arith, p, le)

  insert_row-HasPassed :
      (rows : Dict String RecoveryJob) (key : String) (s : RecoveryJob)
      → HasPassed v (get rows id)
      → HasPassed v (get (insert_row rows key s).1 id)
  unfolding insert_row
  insert_row-HasPassed rows key s h = elim (Option-cases (get rows key)) [
    | inr (a, e) ↦ rw e h
    | inl e ↦ rw e (elim (Bool-cases (string_key.beq key id)) [
      | inl b ↦ absurd (
          subst (HasPassed v) (subst (λ k. get rows k ≡ none) ((string_key.beq_iff key id).0 b) e)
            h)
      | inr b ↦ subst (HasPassed v) (sym (get-put rows key s id)) (rw b h)
    ])
  ]

  update_row-HasPassed :
      (rows : Dict String RecoveryJob) (key : String) (test : RecoveryJob → Bool)
      (change : RecoveryJob → RecoveryJob)
      → ((s : RecoveryJob) → s.version ≤ℤ (change s).version)
      → HasPassed v (get rows id)
      → HasPassed v (get (update_row rows key test change).1 id)
  unfolding update_row
  update_row-HasPassed rows key test change le h = elim (Option-cases (get rows key)) [
    | inl e ↦ rw (update_row, e) h
    | inr (s, e) ↦ elim (Bool-cases (test s)) [
      | inl t ↦ rw (update_row, e, t) (put-HasPassed rows key s (change s) e (le s) h)
      | inr t ↦ rw (update_row, e, t) h
    ]
  ]

  restore_row-version :
      (items : List (String × String)) (window_id key : String) (s : RecoveryJob)
      → s.version ≤ℤ (Windows.restore_row items window_id key s).version
  unfolding Windows.restore_row
  restore_row-version items window_id key s =
      elim (Bool-cases (Windows.is_attached items window_id key && s.status == "in_progress")) [
        | inl e ↦ rw e (ground (arith, +ℤ_parts s.version (pos 1)))
        | inr e ↦ rw e (omega arith)
      ]

  restore-HasPassed :
      (items : List (String × String)) (window_id : String) (rows : Dict String RecoveryJob)
      → HasPassed v (get rows id)
      → HasPassed v (get (map (Windows.restore_job items window_id) rows) id)
  unfolding get
  restore-HasPassed items window_id [] h = h
  restore-HasPassed items window_id ((key, s) ∷ rows) h = elim (Bool-cases (key == id)) [
    | inl b ↦ rw b (
        let p : v <ℤ s.version = rw b at h in
        omega (arith, p, restore_row-version items window_id key s))
    | inr b ↦ rw b (restore-HasPassed items window_id rows (rw b at h))
  ]

  complete_job_at-HasPassed :
      (key status : String) (version now : ℤ) (s : RecoveryJob) (b : Option AcousticBuoy)
      (t : Tables)
      → get t.jobs key ≡ some s
      → HasPassed v (get t.jobs id)
      → HasPassed v (get (Jobs.complete_job_at key status version now s b t).1.jobs id)
  unfolding Jobs.complete_job_at
  complete_job_at-HasPassed key status version now s none t e h = h
  complete_job_at-HasPassed key status version now s (some b) t e h =
      elim (Bool-cases (ltb_ℤ b.completed b.required_successes && s.version ==ℤ version)) [
        | inl c ↦
            rw c (put-HasPassed t.jobs key s _ e (ground (arith, +ℤ_parts s.version (pos 1))) h)
        | inr c ↦ rw c h
      ]

  restored-HasPassed :
      (rows : Bool × Dict String WindowRow) (window_id : String) (t : Tables)
      → HasPassed v (get t.jobs id)
      → HasPassed v (get (Windows.restored rows window_id t).1.jobs id)
  unfolding Windows.restored
  restored-HasPassed (true, rows) window_id t h = restore-HasPassed t.items window_id t.jobs h
  restored-HasPassed (false, rows) window_id t h = h

  -- No statement takes the version of a job back.
  execute-HasPassed :
      (statement : Statement) (t : Tables)
      → HasPassed v (get t.jobs id)
      → HasPassed v (get (execute statement t).1.jobs id)
  unfolding execute Missions.insert_mission Missions.set_mission Missions.insert_buoy
      Missions.insert_operator Missions.insert_assignment Missions.set_assignment Missions.set_name
      Missions.set_role Activation.activate_rows Expiry.expire_job Jobs.insert_job Jobs.set_job
      Jobs.complete_job Jobs.insert_mooring Jobs.insert_item Jobs.start_job Windows.insert_window
      Windows.cancel_window Windows.set_window Reports.insert_report Reports.review_report
      Reports.insert_incident Reports.close_incident Reports.mark_incident Reports.insert_audit
  execute-HasPassed (Statement.insert_mission m) t h = h
  execute-HasPassed (Statement.set_mission x status version) t h = h
  execute-HasPassed (Statement.insert_buoy x input) t h = h
  execute-HasPassed (Statement.insert_operator o) t h = h
  execute-HasPassed (Statement.insert_assignment a) t h = h
  execute-HasPassed (Statement.set_assignment sources x next version) t h = h
  execute-HasPassed (Statement.set_name x name) t h = h
  execute-HasPassed (Statement.set_role x role) t h = h
  execute-HasPassed (Statement.activate_rows locked now limit) t h = h
  execute-HasPassed (Statement.insert_job x input) t h =
      insert_row-HasPassed t.jobs (Jobs.new_job x input).id (Jobs.new_job x input) h
  execute-HasPassed (Statement.set_job x status version now) t h =
      update_row-HasPassed t.jobs x _ _ (λ s. ground (arith, +ℤ_parts s.version (pos 1))) h
  execute-HasPassed (Statement.complete_job x status version now) t h =
      elim (Option-cases (get t.jobs x)) [
        | inl e ↦ rw (Jobs.complete_job, e) h
        | inr (s, e) ↦
            rw (Jobs.complete_job, e)
              (complete_job_at-HasPassed x status version now s (get t.buoys s.acoustic_buoy_id) t e
                h)
      ]
  execute-HasPassed (Statement.insert_mooring x input) t h = h
  execute-HasPassed (Statement.insert_item window_id x) t h =
      elim (Bool-cases (any (λ item. item.0 == window_id && item.1 == x) t.items)) [
        | inl e ↦ rw e h
        | inr e ↦ rw e h
      ]
  execute-HasPassed (Statement.start_job x now) t h =
      update_row-HasPassed t.jobs x _ _ (λ s. ground (arith, +ℤ_parts s.version (pos 1))) h
  execute-HasPassed (Statement.expire_job x) t h =
      update_row-HasPassed t.jobs x _ _ (λ s. ground (arith, +ℤ_parts s.version (pos 1))) h
  execute-HasPassed (Statement.insert_window x input) t h = h
  execute-HasPassed (Statement.cancel_window x version now) t h =
      restored-HasPassed (Windows.cancelled_rows x version now t) x t h
  execute-HasPassed (Statement.set_window source x status version now) t h = h
  execute-HasPassed (Statement.insert_report x input) t h = h
  execute-HasPassed (Statement.review_report x accepted version now) t h = h
  execute-HasPassed (Statement.insert_incident x input) t h = h
  execute-HasPassed (Statement.close_incident x now) t h = h
  execute-HasPassed (Statement.mark_incident x) t h = h
  execute-HasPassed (Statement.insert_audit event) t h = h

  execute_all-HasPassed :
      (statements : List Statement) (t : Tables)
      → HasPassed v (get t.jobs id)
      → HasPassed v (get (execute_all statements t).jobs id)
  unfolding execute_all
  execute_all-HasPassed [] t h = h
  execute_all-HasPassed (s ∷ statements) t h =
      execute_all-HasPassed statements (execute s t).1 (execute-HasPassed s t h)

  -- An update that wrote the row of a job has passed its version.
  set_job-HasPassed :
      (status : String) (now : ℤ) (t : Tables)
      → (Jobs.set_job id status v now t).0 ≡ true
      → HasPassed v (get (Jobs.set_job id status v now t).1.jobs id)
  unfolding Jobs.set_job
  set_job-HasPassed status now t h =
      let (s, e, c, p) = update_row-ok t.jobs id (λ s. s.version ==ℤ v) _ h in
      subst (HasPassed v) (sym (ap (λ rows. get rows id) p ∙ get-put_self t.jobs id _))
        (ground (arith, +ℤ_parts s.version (pos 1)))

  -- A version that has passed is refused.
  set_job_refused :
      (status : String) (now : ℤ) (t : Tables)
      → HasPassed v (get t.jobs id)
      → (Jobs.set_job id status v now t).0 ≡ false
  unfolding Jobs.set_job update_row
  set_job_refused status now t h = elim (Option-cases (get t.jobs id)) [
    | inl e ↦ absurd (subst (HasPassed v) e h)
    | inr (s, e) ↦
        let p : v <ℤ s.version = subst (HasPassed v) e h in
        update_row_refused t.jobs id (λ s. s.version ==ℤ v) _ s e (ground (arith, p))
  ]

  complete_job_refused :
      (status : String) (now : ℤ) (t : Tables)
      → HasPassed v (get t.jobs id)
      → (Jobs.complete_job id status v now t).0 ≡ false
  unfolding Jobs.complete_job Jobs.complete_job_at
  complete_job_refused status now t h = elim (Option-cases (get t.jobs id)) [
    | inl e ↦ absurd (subst (HasPassed v) e h)
    | inr (s, e) ↦
        let p : v <ℤ s.version = subst (HasPassed v) e h in
        elim (Option-cases (get t.buoys s.acoustic_buoy_id)) [
          | inl f ↦ rw (Jobs.complete_job, e, Jobs.complete_job_at, f) refl
          | inr (b, f) ↦ rw (Jobs.complete_job, e, Jobs.complete_job_at, f) (ground (arith, p))
        ]
  ]

-- A version of a job that a move has used, in a transaction that commits, is refused to every later
-- move and completion, whatever statements of `Statement` from transactions that commit run in between.
pub set_job_once :
    (id status later_status : String) (version now later : ℤ) (between : List Statement)
    (t : Tables)
    → (Jobs.set_job id status version now t).0 ≡ true
    → ((Jobs.set_job id later_status version later
          (execute_all between (Jobs.set_job id status version now t).1)).0
        ≡ false)
      × ((Jobs.complete_job id later_status version later
            (execute_all between (Jobs.set_job id status version now t).1)).0
          ≡ false)
set_job_once id status later_status version now later between t h =
    let passed : HasPassed version
        (get (execute_all between (Jobs.set_job id status version now t).1).jobs id) =
      execute_all-HasPassed version id between _ (set_job-HasPassed version id status now t h) in
    (
      set_job_refused version id later_status later _ passed,
      complete_job_refused version id later_status later _ passed,
    )
