-- ===== src/Domain/Bulk/Requests.antt =====
-- Which lists of requests are taken.
use ufo_observation_command.Base.{
  ℤ, ◌≤ℤ◌, String, trim_space, eq_iff, ◌≡◌, ◌≢◌, ◌↔◌, refl, List, [], ◌∷◌, map, All, ok, arith,
}
use ufo_observation_command.Domain.Distinct.{NoRepeats, Apart, Apart-cons, Apart-nil, any_iff}
use ufo_observation_command.Domain.Bulk.{
  RecoveryJobRequest, validate, check_requests, validate_bulk_requests,
}

-- A request that names its mission, its buoy and its task, and has not expired.
abbrev pub IsWellFormed : ℤ → RecoveryJobRequest → Type 0
IsWellFormed now r =
    (trim_space r.survey_mission_id ≢ "")
    × (trim_space r.acoustic_buoy_id ≢ "")
    × (trim_space r.task_code ≢ "")
    × (now ≤ℤ r.expires_at)

abbrev pub codes : List RecoveryJobRequest → List String
codes = map (λ r. r.task_code)

validate_iff : (r : RecoveryJobRequest) (now : ℤ) → (validate r now ≡ ok tt) ↔ IsWellFormed now r
unfolding validate
validate_iff r now = (
  λ h. (
    ground (arith, eq_iff (trim_space r.survey_mission_id) ""),
    ground (arith, eq_iff (trim_space r.acoustic_buoy_id) ""),
    ground (arith, eq_iff (trim_space r.task_code) ""),
    ground arith,
  ),
  λ h. ground (
    arith,
    h.3,
    eq_iff (trim_space r.survey_mission_id) "",
    eq_iff (trim_space r.acoustic_buoy_id) "",
    eq_iff (trim_space r.task_code) "",
  ),
)

check_requests_iff :
    (seen : List String) (rs : List RecoveryJobRequest) (now : ℤ)
    → (check_requests seen rs now ≡ ok tt)
      ↔ (All (IsWellFormed now) rs × Apart seen (codes rs) × NoRepeats (codes rs))
unfolding check_requests
check_requests_iff seen [] now = (λ h. (tt, tt, tt), λ h. refl)
check_requests_iff seen (r ∷ rs) now = (
  λ h.
      let rest = (check_requests_iff (r.task_code ∷ seen) rs now).0 (ground arith) in
      let apart = (Apart-cons r.task_code seen (codes rs)).0 rest.1 in
      (
        ((validate_iff r now).0 (ground arith), rest.0),
        ((any_iff r.task_code seen).0 (ground arith), apart.1),
        (apart.0, rest.2),
      ),
  λ h.
      let rest =
        (check_requests_iff (r.task_code ∷ seen) rs now).1
          (h.0.1, (Apart-cons r.task_code seen (codes rs)).1 (h.2.0, h.1.1), h.2.1) in
      let new = (any_iff r.task_code seen).1 h.1.0 in
      let good = (validate_iff r now).1 h.0.0 in ground arith,
)

-- A bulk of requests is taken exactly when each of them is well formed and no two have one code.
pub validate_bulk_requests_iff :
    (rs : List RecoveryJobRequest) (now : ℤ)
    → (validate_bulk_requests rs now ≡ ok tt) ↔ (All (IsWellFormed now) rs × NoRepeats (codes rs))
unfolding validate_bulk_requests
validate_bulk_requests_iff rs now = (
  λ h. let all = (check_requests_iff [] rs now).0 h in (all.0, all.2),
  λ h. (check_requests_iff [] rs now).1 (h.0, Apart-nil (codes rs), h.1),
)
