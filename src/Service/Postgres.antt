-- ===== src/Service/Postgres.antt =====
-- internal/repository: the statements keep the contract that the services rely on.
pub mod History
pub mod Completion
use ufo_observation_command.Base.{
  ℤ, String, Bool, true, false, Option, none, some, List, [], ◌∷◌, ◌++◌, map, ◌≡◌, refl, sym, ap,
  ◌∙◌, get, string_key, Dict, Error, ok, err, Result, Method, if◌then◌else◌, Bool-cases,
  Option-cases, inl, inr, arith, ◌==◌, wrap,
}
use ufo_observation_command.Base.Methods.{◌>>=◌, ◌>>◌, return, fail, lift, map_error}
use ufo_observation_command.Domain.RecoveryJob.{RecoveryJob}
use ufo_observation_command.Domain.Validation.{AcousticBuoy}
use ufo_observation_command.Repository.Types.{Repository, AuditInput}
use ufo_observation_command.Repository.Tables.{Tables, WindowRow}
use ufo_observation_command.Repository.Driver
use ufo_observation_command.Repository.Driver.{
  Driver, World, statement, select, insert, update, draw_id, server_time,
}
use ufo_observation_command.Repository.Driver.Outcomes.{
  statement-ok, insert-ok, update-ok, draw_id-ok, in_tx-ok, in_tx-err,
}
use ufo_observation_command.Repository.Missions.{found}
use ufo_observation_command.Repository.Missions
use ufo_observation_command.Repository.Jobs
use ufo_observation_command.Repository.Windows
use ufo_observation_command.Repository.Reports
use ufo_observation_command.Repository.Postgres.{postgres}
use ufo_observation_command.Service.Environment.{Environment}
use ufo_observation_command.Service.Contract.{Contract, Entry, entry, Adds, Quiet, Atomic}
use ufo_observation_command.Service.Trail.{
  lift-Quiet, return-Quiet, bind-Adds, bind-Quiet, map_error-Quiet,
}

module _ {D : Type 0} (sql : Driver D) where
  abbrev pub trail_of : World D → List Entry
  trail_of w = map entry w.tables.audits

  fail-Quiet : {A : Type 0} (e : Error) → Quiet trail_of (fail {A = A} e)
  fail-Quiet e = record { adds = λ w w' a h. absurd (ground arith) }

  -- Statements that leave the column of audit events.
  statement-Quiet :
      {A : Type 0} (f : Tables → A × Tables)
      → ((t : Tables) → (f t).1.audits ≡ t.audits)
      → Quiet trail_of (statement sql f)
  statement-Quiet f h = record {
    adds = λ w w' a e.
        (let (p, q) = statement-ok sql f w w' e in
          ap (λ t. map entry t.audits) q ∙ ap (map entry) (h w.tables));
  }

  insert-Quiet :
      (f : Tables → Bool × Tables)
      → ((t : Tables) → (f t).1.audits ≡ t.audits)
      → Quiet trail_of (insert sql f)
  insert-Quiet f h = record {
    adds = λ w w' a e.
        (let (p, q) = insert-ok sql f w w' e in
          ap (λ t. map entry t.audits) q ∙ ap (map entry) (h w.tables));
  }

  update-Quiet :
      (msg : String) (f : Tables → Bool × Tables)
      → ((t : Tables) → (f t).1.audits ≡ t.audits)
      → Quiet trail_of (update sql msg f)
  update-Quiet msg f h = record {
    adds = λ w w' a e.
        (let (p, q) = update-ok sql msg f w w' e in
          ap (λ t. map entry t.audits) q ∙ ap (map entry) (h w.tables));
  }

  draw_id-Quiet : Quiet trail_of (draw_id sql)
  draw_id-Quiet = record { adds = λ w w' a e. ap (λ t. map entry t.audits) (draw_id-ok sql w w' e) }

  server_time-Quiet : Quiet trail_of (server_time sql)
  server_time-Quiet = record { adds = λ w w' a h. ground arith }

  found-Quiet : {A : Type 0} (row : Option A) → Quiet trail_of (found row)
  unfolding found
  found-Quiet none = fail-Quiet _
  found-Quiet (some b) = return-Quiet b

  if-Quiet :
      {A : Type 0} (b : Bool) {m n : Method (World D) A}
      → Quiet trail_of m
      → Quiet trail_of n
      → Quiet trail_of (if b then m else n)
  if-Quiet true p q = p
  if-Quiet false p q = q

  -- A query, with its errors wrapped.
  read-Quiet :
      {A : Type 0} (msg : String) (f : Tables → A)
      → Quiet trail_of (map_error (wrap msg) (select sql f))
  unfolding select
  read-Quiet msg f = map_error-Quiet (wrap msg) (statement-Quiet (λ t. (f t, t)) λ t. refl)

  -- An INSERT under a new identifier.
  insert_new-Quiet :
      (f : String → Tables → Bool × Tables)
      → ((id : String) (t : Tables) → (f id t).1.audits ≡ t.audits)
      → Quiet trail_of (draw_id sql >>= λ id. insert sql (f id) >> return id)
  insert_new-Quiet f h =
      bind-Adds draw_id-Quiet λ id. bind-Adds (insert-Quiet (f id) (h id)) λ _. return-Quiet id

  item-audits :
      (window_id id : String) (t : Tables) → (Jobs.insert_item window_id id t).1.audits ≡ t.audits
  unfolding Jobs.insert_item
  item-audits window_id id t = ground arith

  start_attached-Quiet : (id : String) → Quiet trail_of (Jobs.start_attached sql id)
  unfolding Jobs.start_attached Jobs.start_job
  start_attached-Quiet id = bind-Adds server_time-Quiet λ now.
      bind-Adds (map_error-Quiet _ (statement-Quiet _ λ t. refl))
        λ affected. if-Quiet affected (return-Quiet tt) (fail-Quiet _)

  attach_recovery_jobs-Quiet :
      (window_id : String) (ids : List String)
      → Quiet trail_of (Jobs.attach_recovery_jobs sql window_id ids)
  unfolding Jobs.attach_recovery_jobs
  attach_recovery_jobs-Quiet window_id [] = return-Quiet tt
  attach_recovery_jobs-Quiet window_id (id ∷ ids) =
      bind-Adds (insert-Quiet _ (item-audits window_id id))
        λ _. bind-Adds (start_attached-Quiet id) λ _. attach_recovery_jobs-Quiet window_id ids

  complete_job_at-audits :
      (id status : String) (version now : ℤ) (s : RecoveryJob) (b : Option AcousticBuoy)
      (t : Tables)
      → (Jobs.complete_job_at id status version now s b t).1.audits ≡ t.audits
  unfolding Jobs.complete_job_at
  complete_job_at-audits id status version now s none t = refl
  complete_job_at-audits id status version now s (some b) t = ground arith

  complete_job-audits :
      (id status : String) (version now : ℤ) (t : Tables)
      → (Jobs.complete_job id status version now t).1.audits ≡ t.audits
  unfolding Jobs.complete_job
  complete_job-audits id status version now t = elim (Option-cases (get t.jobs id)) [
    | inl e ↦ rw (Jobs.complete_job, e) refl
    | inr (s, e) ↦
        rw (Jobs.complete_job, e)
          (complete_job_at-audits id status version now s (get t.buoys s.acoustic_buoy_id) t)
  ]

  move_recovery_job-Quiet :
      (id status : String) (version now : ℤ)
      → Quiet trail_of (Jobs.move_recovery_job sql id status version now)
  unfolding Jobs.move_recovery_job Jobs.set_job
  move_recovery_job-Quiet id status version now =
      if-Quiet (status == "completed")
        (update-Quiet _ _ (complete_job-audits id status version now)) (update-Quiet _ _ λ t. refl)

  restored-audits :
      (rows : Bool × Dict String WindowRow) (id : String) (t : Tables)
      → (Windows.restored rows id t).1.audits ≡ t.audits
  unfolding Windows.restored
  restored-audits (true, rows) id t = refl
  restored-audits (false, rows) id t = refl

  change_dive_window-Quiet :
      (id status : String) (version : ℤ)
      → Quiet trail_of (Windows.change_dive_window sql id status version)
  unfolding Windows.change_dive_window Windows.cancel_window Windows.set_window
  change_dive_window-Quiet id status version = bind-Adds server_time-Quiet λ now.
      if-Quiet (status == "cancelled")
        (update-Quiet _ _ λ t. restored-audits (Windows.cancelled_rows id version now t) id t)
        (if-Quiet (status == "running") (update-Quiet _ _ λ t. refl)
          (if-Quiet (status == "completed") (update-Quiet _ _ λ t. refl) (fail-Quiet _)))

  update_operator-Quiet :
      (msg : String) (f : Tables → Bool × Tables)
      → ((t : Tables) → (f t).1.audits ≡ t.audits)
      → Quiet trail_of (Missions.update_operator sql msg f)
  unfolding Missions.update_operator
  update_operator-Quiet msg f h =
      bind-Adds (map_error-Quiet _ (statement-Quiet f h))
        λ affected. if-Quiet affected (return-Quiet tt) (fail-Quiet _)

  check_target-Quiet :
      (statuses : Option (String × String)) → Quiet trail_of (Windows.check_target sql statuses)
  unfolding Windows.check_target
  check_target-Quiet none = fail-Quiet _
  check_target-Quiet (some statuses) = lift-Quiet _

  advance_from-Quiet :
      (sources : Option (List String)) (id next : String) (version : ℤ)
      → Quiet trail_of (Missions.advance_from sql sources id next version)
  unfolding Missions.advance_from Missions.set_assignment
  advance_from-Quiet none id next version = fail-Quiet _
  advance_from-Quiet (some sources) id next version = update-Quiet _ _ λ t. refl

  with_detail-entry : (event : AuditInput) → entry (Reports.with_detail event) ≡ entry event
  unfolding Reports.with_detail entry
  with_detail-entry event = ground arith

  insert_audit-Adds :
      (event : AuditInput)
      → Adds trail_of
          (entry event ∷ [])
          (insert sql (Reports.insert_audit (Reports.with_detail event)))
  unfolding Reports.insert_audit
  insert_audit-Adds event = record {
    adds = λ w w' a e.
        (let (p, q) = insert-ok sql _ w w' e in
          ap (λ t. map entry t.audits) q ∙ ap (λ x. x ∷ trail_of w) (with_detail-entry event));
  }

  -- The environment of a service whose identifiers come from where the statements' do.
  abbrev pub environment : (D → ℤ) → (D → ℤ) → (String → Bool) → Environment (World D)
  environment clock wall known_zone = record {
    now = λ w. clock w.driver;
    wall = λ w. wall w.driver;
    new_id = λ w.
        ((sql.new_id w.driver).0, record { tables = w.tables; driver = (sql.new_id w.driver).1 });
    known_zone = known_zone;
  }

  -- The error of a COMMIT that the server has applied.
  abbrev pub AppliedCommit : Error → World D → Type 0
  AppliedCommit e w =
      (e' : Error) × (e ≡ wrap "commit transaction: %w" e') × (sql.applied w.driver ≡ true)

  postgres_contract :
      (clock wall : D → ℤ) (known_zone : String → Bool)
      → Contract (postgres sql) (environment clock wall known_zone)
  unfolding Missions.create_survey_mission Missions.insert_mission Missions.get_survey_mission
      Missions.advance_survey_mission Missions.set_mission Missions.create_acoustic_buoy
      Missions.insert_buoy Missions.validate_placement Jobs.create_recovery_job Jobs.insert_job
      Jobs.get_recovery_job Jobs.record_activation Jobs.insert_mooring Windows.create_dive_window
      Windows.insert_window Windows.validate_report_target Reports.create_signal_recovery_report
      Reports.insert_report Reports.report_task_id Reports.review_report_record
      Reports.review_report Reports.create_integrity_incident Reports.insert_incident
      Reports.close_integrity_incident Reports.close_incident Reports.mark_integrity_incident
      Reports.mark_incident Missions.create_array_operator Missions.insert_operator
      Missions.get_array_operator Missions.rename_array_operator Missions.set_name
      Missions.create_assignment Missions.insert_assignment Missions.advance_assignment
      Reports.write_audit
  postgres_contract clock wall known_zone = record {
    Data = Tables;
    data_of = λ w. w.tables;
    Applied = AppliedCommit;
    trail = trail_of;
    in_tx-Atomic = λ f. record {
      atomic = λ w w' e h. elim (in_tx-err sql f w w' h) [
        | inl same ↦ inl same
        | inr lost ↦ inr (lost.0, lost.3, lost.4)
      ];
    };
    in_tx-Adds = λ f es a. record {
      adds = λ w w' b h.
          (let (u, v, p, q, r) = in_tx-ok sql f w w' h in
            ap (λ t. map entry t.audits) r ∙ a.adds u v b q ∙ ap (λ t. es ++ map entry t.audits) p);
    };
    new_string-Inert = record { inert = λ w. refl };
    new_string-Quiet = record { adds = λ w w' a h. ap (λ x. trail_of x.1) (sym h) };
    write_audit-Adds = λ event.
        bind-Adds (lift-Quiet _) λ _. bind-Adds draw_id-Quiet λ id. insert_audit-Adds event;
    create_survey_mission-Quiet = λ m. insert-Quiet _ λ t. refl;
    get_survey_mission-Quiet = λ id. bind-Adds (read-Quiet _ _) λ row. found-Quiet row;
    advance_survey_mission-Quiet = λ id status version. update-Quiet _ _ λ t. refl;
    create_acoustic_buoy-Quiet = λ input. insert_new-Quiet _ λ id t. refl;
    validate_placement-Quiet = λ mission_id id. bind-Adds (read-Quiet _ _) λ b. lift-Quiet _;
    create_recovery_job-Quiet = λ input.
        bind-Adds draw_id-Quiet λ id. bind-Adds (insert-Quiet _ λ t. refl) λ _. return-Quiet _;
    get_recovery_job-Quiet = λ id. bind-Adds (read-Quiet _ _) λ row. found-Quiet row;
    move_recovery_job-Quiet = move_recovery_job-Quiet;
    record_activation-Quiet = λ input. bind-Adds draw_id-Quiet λ id. insert-Quiet _ λ t. refl;
    create_dive_window-Quiet = λ input. insert_new-Quiet _ λ id t. refl;
    attach_recovery_jobs-Quiet = attach_recovery_jobs-Quiet;
    change_dive_window-Quiet = change_dive_window-Quiet;
    validate_report_target-Quiet =
        λ task_id id. bind-Adds (read-Quiet _ _) λ statuses. check_target-Quiet statuses;
    create_signal_recovery_report-Quiet = λ input. insert_new-Quiet _ λ id t. refl;
    report_task_id-Quiet = λ id. bind-Adds (read-Quiet _ _) λ row. found-Quiet row;
    review_report_record-Quiet = λ id accepted version now. update-Quiet _ _ λ t. refl;
    create_integrity_incident-Quiet = λ input. insert_new-Quiet _ λ id t. refl;
    close_integrity_incident-Quiet = λ id now. update-Quiet _ _ λ t. refl;
    mark_integrity_incident-Quiet = λ id. update-Quiet _ _ λ t. refl;
    create_array_operator-Quiet = λ o. bind-Adds (lift-Quiet _) λ _. insert-Quiet _ λ t. refl;
    get_array_operator-Quiet = λ id. bind-Adds (read-Quiet _ _) λ row. found-Quiet row;
    rename_array_operator-Quiet = λ id name. update_operator-Quiet _ _ λ t. refl;
    create_assignment-Quiet = λ a. bind-Adds (lift-Quiet _) λ _. insert-Quiet _ λ t. refl;
    advance_assignment-Quiet = λ id next version. advance_from-Quiet _ id next version;
  }
