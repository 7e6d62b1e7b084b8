-- ===== src/Service/Postgres/History.antt =====
-- internal/service over internal/repository: sequences of use cases, the trail they leave and what
-- a use case that fails has done.
use mathlib.Core.List.{append_assoc}
use ufo_observation_command.Base.{
  false, arith, ◌⊎◌, inl, inr, ℤ, String, Bool, List, [], ◌∷◌, ◌++◌, map, ◌≡◌, refl, sym, ap, ◌∙◌,
  Error, Result, ok, err, Method,
}
use ufo_observation_command.Repository.Driver.{Driver, World}
use ufo_observation_command.Repository.Postgres.{postgres}
use ufo_observation_command.Service.Environment.{RequestMeta}
use ufo_observation_command.Service.Contract.{Entry, entry}
use ufo_observation_command.Service.Command.{Command, run, entries}
use ufo_observation_command.Service.Command.Audited.{run-Adds}
use ufo_observation_command.Service.Command.Atomic.{run-IsAtomic}
use ufo_observation_command.Service.Postgres.{
  environment, trail_of, postgres_contract, AppliedCommit,
}

module _ {D : Type 0} (sql : Driver D) (clock wall : D → ℤ) (known_zone : String → Bool) where
  -- One use case on the tables.
  abbrev perform : RequestMeta → Command → Method (World D) (Unit {0})
  perform meta command = run (postgres sql) (environment sql clock wall known_zone) meta command

  -- A use case of `Command` that fails, at whatever check or call of the repository, has changed no
  -- table, unless its error is that of a COMMIT which the server has applied all the same.
  pub run_atomic :
      (meta : RequestMeta) (command : Command) (w w' : World D) (e : Error)
      → run (postgres sql) (environment sql clock wall known_zone) meta command w ≡ (err e, w')
      → (w'.tables ≡ w.tables) ⊎ AppliedCommit sql e w'
  unfolding postgres_contract
  run_atomic meta command w w' e h =
      (run-IsAtomic meta (postgres_contract sql clock wall known_zone) command).atomic w w' e h

  run-entries :
      (meta : RequestMeta) (command : Command) (w w' : World D)
      → run (postgres sql) (environment sql clock wall known_zone) meta command w ≡ (ok tt, w')
      → trail_of sql w' ≡ entries meta command ++ trail_of sql w
  unfolding postgres_contract
  run-entries meta command w w' h =
      (run-Adds meta (postgres_contract sql clock wall known_zone) command).adds w w' tt h

  -- The calls of a history, one after the other, whether they succeed or not.
  unfoldable pub run_all : List (RequestMeta × Command) → World D → World D
  unfolding run
  run_all [] w = w
  run_all ((meta, command) ∷ calls) w = run_all calls (perform meta command w).1

  -- The entries of a call, if it succeeded.
  unfoldable pub logged_of : RequestMeta → Command → Result (Unit {0}) → List Entry
  unfolding entries
  logged_of meta command (ok a) = entries meta command
  logged_of meta command (err e) = []

  -- The entries of the calls that succeeded, the newest first.
  unfoldable pub logged : List (RequestMeta × Command) → World D → List Entry
  unfolding logged_of run
  logged [] w = []
  logged ((meta, command) ∷ calls) w =
      logged calls (perform meta command w).1 ++ logged_of meta command (perform meta command w).0

  perform-logged :
      (settled : (d : D) → sql.applied d ≡ false) (meta : RequestMeta) (command : Command)
      (w w' : World D) (r : Result (Unit {0}))
      → perform meta command w ≡ (r, w')
      → trail_of sql w' ≡ logged_of meta command r ++ trail_of sql w
  unfolding logged_of
  perform-logged settled meta command w w' (ok tt) h = run-entries meta command w w' h
  perform-logged settled meta command w w' (err e) h = elim (run_atomic meta command w w' e h) [
    | inl same ↦ ap (λ t. map entry t.audits) same
    | inr (e', wrapped, applied) ↦ absurd (ground (arith, applied, settled w'.driver))
  ]

  -- When no COMMIT that reports an error is applied: the trail after a history of use cases of
  -- `Command` is the log of those that succeeded, on top of what was there.
  pub run_all-logged :
      ((d : D) → sql.applied d ≡ false)
      → (calls : List (RequestMeta × Command)) (w : World D)
      → trail_of sql (run_all calls w) ≡ logged calls w ++ trail_of sql w
  unfolding run_all logged
  run_all-logged settled [] w = refl
  run_all-logged settled ((meta, command) ∷ calls) w =
      run_all-logged settled calls (perform meta command w).1
      ∙ ap (λ x. logged calls (perform meta command w).1 ++ x)
          (perform-logged settled meta command w (perform meta command w).1
            (perform meta command w).0 refl)
      ∙ sym (
          append_assoc (logged calls (perform meta command w).1)
            (logged_of meta command (perform meta command w).0) (trail_of sql w))
