-- ===== src/ArrayOps/Worker/Once.antt =====
-- `OnceStep`: what holds of whole runs.
use ufo_observation_command.Base.{
  String, ◌==◌, eq_refl, ◌≡◌, refl, true, false, Option, none, some, any, Error, arith, Bool-cases,
  Option-cases, inl, inr,
}
use ufo_observation_command.ArrayOps.Worker.{OnceStep, is_seen, perform, mark, run}

module _ {W : Type 0} (execute : String → W → Option Error × W) where
  mark-is_seen : (key : String) (s : OnceStep W) → is_seen execute key (mark execute key s) ≡ true
  unfolding is_seen mark
  mark-is_seen key s = elim (Bool-cases (any (λ k. k == key) s.seen)) [
    | inl e ↦ rw e e
    | inr e ↦ rw e (rw (eq_refl key) refl)
  ]

  -- After a run that succeeded, another run of the key returns nil and executes nothing.
  pub run_again :
      (key : String) (s : OnceStep W)
      → (run execute key s).0 ≡ none
      → run execute key (run execute key s).1 ≡ (none, (run execute key s).1)
  unfolding run
  run_again key s h = elim (Bool-cases (is_seen execute key s)) [
    | inl e ↦ ground arith
    | inr e ↦ elim (Option-cases (perform execute key s).0) [
      | inr (x, p) ↦ absurd (ground arith)
      | inl p ↦ ground (arith, mark-is_seen key (perform execute key s).1)
    ]
  ]

  -- A run that failed leaves its key unmarked, so a later run executes again.
  pub failed_unmarked :
      (key : String) (s : OnceStep W) (e : Error)
      → (run execute key s).0 ≡ some e
      → is_seen execute key (run execute key s).1 ≡ false
  unfolding run
  failed_unmarked key s e h = ground arith
