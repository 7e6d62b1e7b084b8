-- ===== src/Repository/Activation.antt =====
-- internal/repository/assignment_worker.go: queued assignments whose time has come become active.
use ufo_observation_command.Base.{
  ℕ, ℤ, pos, ◌+ℤ◌, ltb_ℤ, leb_ℤ, pos_part, String, ◌==◌, Bool, not, ◌&&◌, ◌||◌, List, length, take,
  map, keep, any, if◌then◌else◌, wrap, Method,
}
use ufo_observation_command.Base.Methods.{map_error}
use ufo_observation_command.Domain.Search.{sort_by}
use ufo_observation_command.Repository.Tables.{Tables, AssignmentRow}
use ufo_observation_command.Repository.Driver.{Driver, World, statement}

-- The rows of the inner SELECT before its ORDER BY; other transactions hold the locks of some.
abbrev pub is_due : (String → Bool) → ℤ → String × AssignmentRow → Bool
is_due locked now row =
    row.1.assignment.status == "queued"
    && leb_ℤ row.1.assignment.starts_at now
    && ltb_ℤ now row.1.assignment.ends_at
    && not (locked row.0)

unfoldable pub due_assignments : (String → Bool) → ℤ → ℕ → Tables → List String
due_assignments locked now limit t =
    map (λ row. row.0)
      (take limit (
        sort_by (λ a b. ltb_ℤ a.1.assignment.starts_at b.1.assignment.starts_at)
          (keep (is_due locked now) t.assignments)))

abbrev pub activated : List String → String × AssignmentRow → String × AssignmentRow
activated ids row =
    if any (λ id. id == row.0) ids
    then (
      row.0,
      record {
        assignment = record row.1.assignment { status = "active" };
        version = row.1.version +ℤ pos 1;
      },
    )
    else row

-- The UPDATE, with the number of rows it affected.
unfoldable pub activate_rows : (String → Bool) → ℤ → ℕ → Tables → ℕ × Tables
unfolding due_assignments
activate_rows locked now limit t =
    let ids : List String = due_assignments locked now limit t in
    (length ids, record t { assignments = map (activated ids) t.assignments })

unfoldable pub activate_due : {D : Type 0} → Driver D → (String → Bool) → ℤ → ℤ → Method (World D) ℕ
unfolding statement activate_rows
activate_due sql locked now limit = map_error (wrap "activate due assignments: %w") (
    statement sql (
      activate_rows locked now
        (pos_part (if ltb_ℤ limit (pos 1) || ltb_ℤ (pos 500) limit then pos 100 else limit))))
