-- ===== src/ArrayOps/Tests.antt =====
-- Runs of internal/arrayops at concrete inputs, and the theorems about it at such inputs.
use ufo_observation_command.Base.{
  ℕ, ◌+◌, ◌≤◌, ℤ, pos, ◌+ℤ◌, inc64, String, ◌≡◌, refl, none, some, List, [], ◌∷◌, get, string_key,
  eq_iff, arith, plain, if◌then◌else◌, ltb_ℤ, if◌then◌else◌,
}
use ufo_observation_command.ArrayOps.Lease.{new_lease, acquire}
use ufo_observation_command.ArrayOps.Lease.Exclusion.{
  acquires, releases, renews, run as run_lease, grant_kept,
}
use ufo_observation_command.ArrayOps.Capacity.{new_capacity, used}
use ufo_observation_command.ArrayOps.Capacity.Bounds.{run as run_capacity, grants, run_bounded}
use ufo_observation_command.ArrayOps.Worker.{Environment, run_steps}
use ufo_observation_command.ArrayOps.Worker.Attempts.{
  EndsWithSuccess, Within, run_steps_sound, run_steps_bounded,
}

grant_kept_example :
    run_lease
      (acquire "a" (pos 0) (pos 10) new_lease).1
      (acquires "b" (pos 5) (pos 10) ∷ releases "b" (pos 6) ∷ renews "b" (pos 7) (pos 10) ∷ [])
    ≡ record { owner = "a"; expires_at = pos 0 +ℤ pos 10 }
unfolding acquire ◌+ℤ◌
grant_kept_example =
    grant_kept "a" (pos 0) (pos 10) new_lease
      (acquires "b" (pos 5) (pos 10) ∷ releases "b" (pos 6) ∷ renews "b" (pos 7) (pos 10) ∷ []) refl
      (
        (ground (arith, eq_iff "b" "a"), omega arith),
        (
          (ground (arith, eq_iff "b" "a"), omega arith),
          ((ground (arith, eq_iff "b" "a"), omega arith), tt),
        ),
      )

abbrev requests : List (String × ℤ)
requests = ("lane", pos 2) ∷ ("lane", pos 2) ∷ ("other", pos 9) ∷ ("lane", pos 2) ∷ []

none_used : used new_capacity "lane" ≡ pos 0
unfolding used get
none_used = refl

run_bounded_example :
    (used (run_capacity new_capacity requests) "lane"
      ≡ pos (0 + grants "lane" new_capacity requests))
    × (0 + grants "lane" new_capacity requests ≤ 2)
run_bounded_example =
    run_bounded "lane" 2 0 new_capacity requests (omega arith) none_used (omega arith) (
      λ e. omega arith,
      (
        λ e. omega arith,
        (λ e. absurd (ground (arith, eq_iff "other" "lane")), (λ e. omega arith, tt)),
      ),
    )

-- A world that counts the steps; the second step succeeds.
abbrev counting : Environment ℕ
counting = record {
  ctx_err = λ w. none;
  wait_backoff = λ w. (none, w);
  step = λ attempt w. (if ltb_ℤ attempt (pos 2) then some (plain "busy") else none, w + 1);
}

second_succeeds : run_steps counting 4 (pos 3) 0 ≡ some (none, 2)
unfolding run_steps inc64
second_succeeds = refl

run_steps_sound_example : EndsWithSuccess counting 2
run_steps_sound_example = run_steps_sound counting 4 (pos 3) 0 2 (omega arith) second_succeeds

run_steps_bounded_example :
    Within counting
      (λ w. w)
      (λ attempt w. refl)
      (λ w. refl)
      (run_steps counting 4 (pos 3) 0)
      (0 + 3)
run_steps_bounded_example =
    run_steps_bounded counting (λ w. w) (λ attempt w. refl) (λ w. refl) 4 (pos 3) 0 (omega arith)
      (omega arith)
