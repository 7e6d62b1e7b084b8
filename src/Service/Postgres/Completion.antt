-- ===== src/Service/Postgres/Completion.antt =====
-- internal/service/service.go over internal/repository/postgres.go: what a completion of a recovery
-- job has found in the tables, and what it has written.
use ufo_observation_command.Base.{
  ℤ, pos, ◌+ℤ◌, ◌==ℤ◌, ltb_ℤ, String, ◌==◌, Bool, true, false, not, ◌&&◌, Option, none, some,
  some-injective, get, put, get-put_self, string_key, ◌≡◌, refl, sym, subst, ap, ◌∙◌, ok, wrap,
  refuse-ok, Option-cases, Bool-cases, inl, inr, arith, ok-injective,
}
use ufo_observation_command.Base.Methods.{◌>>=◌, map_error, bind-ok, map_error-ok, lift-ok}
use ufo_observation_command.Domain.SurveyMission.{SurveyMission, can_execute_at}
use ufo_observation_command.Domain.RecoveryJob.{RecoveryJob, move, can_move_to}
use ufo_observation_command.Domain.Validation.{AcousticBuoy}
use ufo_observation_command.Repository.Types.{AuditInput}
use ufo_observation_command.Repository.Tables.{Tables}
use ufo_observation_command.Repository.Driver.{Driver, World, select}
use ufo_observation_command.Repository.Driver.Outcomes.{
  tables_of, select-ok, draw_id-ok, insert-ok, update-ok, in_tx-ok,
}
use ufo_observation_command.Repository.Missions
use ufo_observation_command.Repository.Missions.{found}
use ufo_observation_command.Repository.Jobs
use ufo_observation_command.Repository.Reports
use ufo_observation_command.Repository.Postgres.{postgres}
use ufo_observation_command.Service.Environment.{RequestMeta}
use ufo_observation_command.Service.Jobs as Cases
use ufo_observation_command.Service.Postgres.{environment}

module _ {D : Type 0} (sql : Driver D) where
  found-ok :
      {A : Type 0} (row : Option A) (w w' : World D) {a : A}
      → found row w ≡ (ok a, w')
      → (row ≡ some a) × (w'.tables ≡ w.tables)
  unfolding found
  found-ok none w w' h = absurd (ground arith)
  found-ok (some b) w w' h = (ap some (ok-injective (ap (λ x. x.0) h)), tables_of sql h)

  -- A query for a row that returns one.
  read-ok :
      {A : Type 0} (msg : String) (f : Tables → Option A) (w w' : World D) {a : A}
      → (map_error (wrap msg) (select sql f) >>= λ row. found row) w ≡ (ok a, w')
      → (f w.tables ≡ some a) × (w'.tables ≡ w.tables)
  read-ok msg f w w' h =
      let (row, t, e, r) = bind-ok _ _ h in
      let (p, q) = select-ok sql f w t (map_error-ok _ _ e) in
      let (u, v) = found-ok row t w' r in (p ∙ u, v ∙ q)

  -- The row of an event is the only change that `WriteAudit` makes.
  write_audit-ok :
      (event : AuditInput) (w w' : World D)
      → Reports.write_audit sql event w ≡ (ok tt, w')
      → (w'.tables.jobs ≡ w.tables.jobs) × (w'.tables.buoys ≡ w.tables.buoys)
  unfolding Reports.write_audit Reports.insert_audit
  write_audit-ok event w w' h =
      let (x, t, e, r) = bind-ok _ _ h in
      let (id, u, e₂, r₂) = bind-ok _ _ r in
      let (p, q) = insert-ok sql _ u w' r₂ in
      let d : u.tables ≡ w.tables = draw_id-ok sql t u e₂ ∙ tables_of sql e in
      (ap (λ t. t.jobs) q ∙ ap (λ t. t.jobs) d, ap (λ t. t.buoys) q ∙ ap (λ t. t.buoys) d)

  -- The rows of a completion.
  abbrev pub completed_row : RecoveryJob → ℤ → RecoveryJob
  completed_row s now = record s {
    status = "completed";
    version = s.version +ℤ pos 1;
    completed_at = some now;
  }

  abbrev pub counted_row : AcousticBuoy → AcousticBuoy
  counted_row b = record b { completed = b.completed +ℤ pos 1 }

  complete_job_at-ok :
      (id : String) (version now : ℤ) (s : RecoveryJob) (row : Option AcousticBuoy) (t : Tables)
      → (Jobs.complete_job_at id "completed" version now s row t).0 ≡ true
      → (b : AcousticBuoy) × (row ≡ some b)
        × (ltb_ℤ b.completed b.required_successes ≡ true)
        × ((s.version ==ℤ version) ≡ true)
        × ((Jobs.complete_job_at id "completed" version now s row t).1.jobs
            ≡ put t.jobs id (completed_row s now))
        × ((Jobs.complete_job_at id "completed" version now s row t).1.buoys
            ≡ put t.buoys s.acoustic_buoy_id (counted_row b))
  unfolding Jobs.complete_job_at
  complete_job_at-ok id version now s none t h = absurd (ground arith)
  complete_job_at-ok id version now s (some b) t h =
      elim (Bool-cases (ltb_ℤ b.completed b.required_successes && s.version ==ℤ version)) [
        | inl e ↦ (b, refl, ground arith, ground arith, rw e refl, rw e refl)
        | inr e ↦ absurd (ground arith)
      ]

  -- A completion in the tables that affected its row.
  complete_job-ok :
      (id : String) (version now : ℤ) (t : Tables)
      → (Jobs.complete_job id "completed" version now t).0 ≡ true
      → (s : RecoveryJob) × (b : AcousticBuoy) × (get t.jobs id ≡ some s)
        × (get t.buoys s.acoustic_buoy_id ≡ some b)
        × (ltb_ℤ b.completed b.required_successes ≡ true)
        × ((s.version ==ℤ version) ≡ true)
        × ((Jobs.complete_job id "completed" version now t).1.jobs
            ≡ put t.jobs id (completed_row s now))
        × ((Jobs.complete_job id "completed" version now t).1.buoys
            ≡ put t.buoys s.acoustic_buoy_id (counted_row b))
  unfolding Jobs.complete_job
  complete_job-ok id version now t h = elim (Option-cases (get t.jobs id)) [
    | inl e ↦ absurd (
        let f : (Jobs.complete_job id "completed" version now t).0 ≡ false =
          rw (Jobs.complete_job, e) refl in
        ground arith)
    | inr (s, e) ↦
        let r : Jobs.complete_job id "completed" version now t
            ≡ Jobs.complete_job_at id "completed" version now s (get t.buoys s.acoustic_buoy_id) t =
          rw (Jobs.complete_job, e) refl in
        let (b, f, l, v, j, k) =
          complete_job_at-ok id version now s (get t.buoys s.acoustic_buoy_id) t
            (sym (ap (λ x. x.0) r) ∙ h) in
        (s, b, e, f, l, v, ap (λ x. x.1.jobs) r ∙ j, ap (λ x. x.1.buoys) r ∙ k)
  ]

can_complete :
    (status : String) → can_move_to status "completed" ≡ true → (status == "queued") ≡ true
unfolding can_move_to
can_complete status h = ground arith

-- A completion that the rules of jobs allow: the job was queued and is completed.
move_completed :
    (s updated : RecoveryJob) (now : ℤ)
    → move s "completed" now ≡ ok updated
    → ((s.status == "queued") ≡ true) × (updated.status ≡ "completed")
unfolding move
move_completed s updated now h =
    let can : can_move_to s.status "completed" ≡ true = ground arith in
    (can_complete s.status can, ground arith)

module _ {D : Type 0} (sql : Driver D) (clock wall : D → ℤ) (known_zone : String → Bool)
    (meta : RequestMeta) where
  check_mission-ok :
      (s : RecoveryJob) (w w' : World D)
      → Cases.check_mission
          (postgres sql)
          (environment sql clock wall known_zone)
          meta
          s
          "completed"
          w
        ≡ (ok tt, w')
      → (m : SurveyMission) × (now : ℤ) × (get w.tables.missions s.survey_mission_id ≡ some m)
        × (can_execute_at m now ≡ true)
        × (w'.tables ≡ w.tables)
  unfolding Cases.check_mission Missions.get_survey_mission
  check_mission-ok s w w' h =
      let (m, t, e, r) = bind-ok _ _ h in
      let (now, u, f, g) = bind-ok _ _ r in
      let (p, q) = read-ok sql _ (λ t. get t.missions s.survey_mission_id) w t e in
      let (x, y) = lift-ok _ g in
      let c : not (can_execute_at m now) ≡ false = refuse-ok _ _ x in
      (m, now, p, ground arith, ap (λ w. w.tables) y ∙ tables_of sql f ∙ q)

  move_row-ok :
      (id : String) (version now : ℤ) (w w' : World D)
      → Jobs.move_recovery_job sql id "completed" version now w ≡ (ok tt, w')
      → ((Jobs.complete_job id "completed" version now w.tables).0 ≡ true)
        × (w'.tables ≡ (Jobs.complete_job id "completed" version now w.tables).1)
  unfolding Jobs.move_recovery_job
  move_row-ok id version now w w' h = update-ok sql "complete task: %w" _ w w' h

  -- What the calls of a completion have found, and the statement that it has run.
  completion_calls :
      (id : String) (version : ℤ) (w w' : World D)
      → Cases.move_recovery_job
          (postgres sql)
          (environment sql clock wall known_zone)
          meta
          id
          version
          "completed"
          "complete"
          w
        ≡ (ok tt, w')
      → (s : RecoveryJob) × (m : SurveyMission) × (started : ℤ) × (now : ℤ) × (get w.tables.jobs id
          ≡ some s)
        × ((s.status == "queued") ≡ true)
        × (get w.tables.missions s.survey_mission_id ≡ some m)
        × (can_execute_at m started ≡ true)
        × ((Jobs.complete_job id "completed" version now w.tables).0 ≡ true)
        × (w'.tables.jobs ≡ (Jobs.complete_job id "completed" version now w.tables).1.jobs)
        × (w'.tables.buoys ≡ (Jobs.complete_job id "completed" version now w.tables).1.buoys)
  unfolding Cases.move_recovery_job Jobs.get_recovery_job
  completion_calls id version w w' h =
      let (u, v, tu, f, tv) = in_tx-ok sql _ w w' h in
      let (s, w₁, e₁, r₁) = bind-ok _ _ f in
      let (p₁, q₁) = read-ok sql _ (λ t. get t.jobs id) u w₁ e₁ in
      let (x₂, w₂, e₂, r₂) = bind-ok _ _ r₁ in
      let (m, started, p₂, c, q₂) = check_mission-ok s w₁ w₂ e₂ in
      let (now, w₃, e₃, r₃) = bind-ok _ _ r₂ in
      let (updated, w₄, e₄, r₄) = bind-ok _ _ r₃ in
      let (a₄, b₄) = lift-ok _ e₄ in
      let (queued, reached) = move_completed s updated now a₄ in
      let (later, w₅, e₅, r₅) = bind-ok _ _ r₄ in
      let (x₆, w₆, e₆, r₆) = bind-ok _ _ r₅ in
      let same : w₅.tables ≡ w.tables =
        tables_of sql e₅ ∙ ap (λ w. w.tables) b₄ ∙ tables_of sql e₃ ∙ q₂ ∙ q₁ ∙ tu in
      let (hit, wrote) = move_row-ok id version later w₅ w₆ (
        subst (λ status. Jobs.move_recovery_job sql id status version later w₅ ≡ (ok tt, w₆))
          reached e₆) in
      let (aj, ab) = write_audit-ok sql _ w₆ v r₆ in
      (
        s,
        m,
        started,
        later,
        ap (λ t. get t.jobs id) (sym tu) ∙ p₁,
        queued,
        ap (λ t. get t.missions s.survey_mission_id) (sym (q₁ ∙ tu)) ∙ p₂,
        c,
        ap (λ t. (Jobs.complete_job id "completed" version later t).0) (sym same) ∙ hit,
        ap (λ t. t.jobs) tv
            ∙ aj
            ∙ ap (λ t. t.jobs) wrote
            ∙ ap (λ t. (Jobs.complete_job id "completed" version later t).1.jobs) same,
        ap (λ t. t.buoys) tv
            ∙ ab
            ∙ ap (λ t. t.buoys) wrote
            ∙ ap (λ t. (Jobs.complete_job id "completed" version later t).1.buoys) same,
      )

  -- A completion that succeeds has found the job queued at the version of the request, its mission
  -- active in its window at some instant, and its buoy with a success still to come; afterwards the
  -- job is completed at the next version, and the buoy counts one success more.
  pub complete_recovery_job_lem :
      (id : String) (version : ℤ) (w w' : World D)
      → Cases.move_recovery_job
          (postgres sql)
          (environment sql clock wall known_zone)
          meta
          id
          version
          "completed"
          "complete"
          w
        ≡ (ok tt, w')
      → (s : RecoveryJob) × (m : SurveyMission) × (b : AcousticBuoy) × (started : ℤ) × (now : ℤ)
        × (get w.tables.jobs id ≡ some s)
        × ((s.status == "queued") ≡ true)
        × ((s.version ==ℤ version) ≡ true)
        × (get w.tables.missions s.survey_mission_id ≡ some m)
        × (can_execute_at m started ≡ true)
        × (get w.tables.buoys s.acoustic_buoy_id ≡ some b)
        × (ltb_ℤ b.completed b.required_successes ≡ true)
        × (get w'.tables.jobs id ≡ some (completed_row sql s now))
        × (get w'.tables.buoys s.acoustic_buoy_id ≡ some (counted_row sql b))
  complete_recovery_job_lem id version w w' h =
      let (s, m, started, now, p, queued, mission, c, hit, whole, counts) =
        completion_calls id version w w' h in
      let (s', b, p', bp, room, current, jobs, buoys) =
        complete_job-ok sql id version now w.tables hit in
      let one : s' ≡ s = some-injective s' s (sym p' ∙ p) in
      (
        s,
        m,
        b,
        started,
        now,
        p,
        queued,
        subst (λ s. (s.version ==ℤ version) ≡ true) one current,
        mission,
        c,
        subst (λ s. get w.tables.buoys s.acoustic_buoy_id ≡ some b) one bp,
        room,
        ap (λ rows. get rows id) (whole ∙ jobs)
            ∙ get-put_self w.tables.jobs id (completed_row sql s' now)
            ∙ ap (λ s. some (completed_row sql s now)) one,
        subst (λ s. get w'.tables.buoys s.acoustic_buoy_id ≡ some (counted_row sql b)) one
            (ap (λ rows. get rows s'.acoustic_buoy_id) (counts ∙ buoys)
              ∙ get-put_self w.tables.buoys s'.acoustic_buoy_id (counted_row sql b)),
      )
