-- ===== src/Domain/DiveWindow/Jobs.antt =====
-- Which recovery jobs a dive window takes.
use ufo_observation_command.Base.{
  pos, ◌≤ℤ◌, String, trim_space, eq_iff, ◌≡◌, ◌≢◌, ◌↔◌, refl, sym, List, [], ◌∷◌, ◌++◌, length, All,
  ok, arith, length-append,
}
use ufo_observation_command.Domain.Distinct.{
  NoRepeats, Apart, Apart-cons, NoRepeats-append, any_iff,
}
use ufo_observation_command.Domain.DiveWindow.{DiveWindow, check_ids, add_recovery_jobs}

abbrev pub NotBlank : String → Type 0
NotBlank id = trim_space id ≢ ""

check_ids_iff :
    (seen ids : List String)
    → (check_ids seen ids ≡ ok tt) ↔ (All NotBlank ids × Apart seen ids × NoRepeats ids)
unfolding check_ids
check_ids_iff seen [] = (λ h. (tt, tt, tt), λ h. refl)
check_ids_iff seen (id ∷ ids) = (
  λ h.
      let rest = (check_ids_iff (id ∷ seen) ids).0 (ground arith) in
      let apart = (Apart-cons id seen ids).0 rest.1 in
      (
        (ground (arith, eq_iff (trim_space id) ""), rest.0),
        ((any_iff id seen).0 (ground arith), apart.1),
        (apart.0, rest.2),
      ),
  λ h.
      let rest =
        (check_ids_iff (id ∷ seen) ids).1
          (h.0.1, (Apart-cons id seen ids).1 (h.2.0, h.1.1), h.2.1) in
      let new = (any_iff id seen).1 h.1.0 in ground (arith, eq_iff (trim_space id) "", h.0.0),
)

-- For a window whose jobs do not repeat: jobs are added exactly when none of the new ones is blank,
-- the whole list does not repeat and it fits the capacity. Then it is the list of the new window,
-- and the rest of the window is as before.
pub add_recovery_jobs_iff :
    (b c : DiveWindow) (ids : List String)
    → NoRepeats b.recovery_jobs
    → (add_recovery_jobs b ids ≡ ok c) ↔ (
        All NotBlank ids
        × NoRepeats (b.recovery_jobs ++ ids)
        × (pos (length (b.recovery_jobs ++ ids)) ≤ℤ b.capacity)
        × (c ≡ record b { recovery_jobs = b.recovery_jobs ++ ids }))
unfolding add_recovery_jobs
add_recovery_jobs_iff b c ids n = (
  λ h.
      let checked : check_ids b.recovery_jobs ids ≡ ok tt = ground arith in
      let new = (check_ids_iff b.recovery_jobs ids).0 checked in
      (
        new.0,
        (NoRepeats-append b.recovery_jobs ids).1 (n, new.2, new.1),
        ground (arith, length-append b.recovery_jobs ids),
        sym (ground arith),
      ),
  λ h.
      let split = (NoRepeats-append b.recovery_jobs ids).0 h.1 in
      let checked = (check_ids_iff b.recovery_jobs ids).1 (h.0, split.2, split.1) in
      ground (arith, h.2, h.3, length-append b.recovery_jobs ids),
)
