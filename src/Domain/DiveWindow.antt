-- ===== src/Domain/DiveWindow.antt =====
-- internal/domain/status.go and round.go: dive windows, the moves of their status, and the recovery
-- jobs that are put into one. The set `seen` is the list of what was put into it.
pub mod Jobs
use ufo_observation_command.Base.{
  ℕ, ◌+◌, ℤ, pos, ltb_ℤ, String, ◌==◌, trim_space, Bool, true, false, not, ◌&&◌, ◌||◌, List, [],
  ◌∷◌, ◌++◌, length, any, if◌then◌else◌, Result, ok, err, ◌>>◌, ◌>>=◌, refuse,
}
use ufo_observation_command.Domain.Errors.{conflict_error, capacity_sentinel}

unfoldable pub can_move_to : String → String → Bool
can_move_to s next =
    if s == "queued"
    then next == "running" || next == "cancelled"
    else if s == "running"
    then next == "completed" || next == "cancelled"
    else false

pub record DiveWindow : Type 0 where
  pub id : String
  pub code : String
  pub status : String
  pub method : String
  pub capacity : ℤ
  pub recovery_jobs : List String
  pub version : ℤ

unfoldable pub validate : DiveWindow → Result (Unit {0})
validate b = do
  refuse (trim_space b.code == "" || trim_space b.method == "")
      (conflict_error "acoustic_buoy round code and method are required: %w")
  refuse (ltb_ℤ b.capacity (pos 1))
      (conflict_error "acoustic_buoy round capacity must be positive: %w")
  refuse (ltb_ℤ b.capacity (pos (length b.recovery_jobs))) capacity_sentinel
  ok tt

abbrev pub contains : List String → String → Bool
contains seen id = any (λ s. s == id) seen

-- The loop over the new identifiers.
unfoldable pub check_ids : List String → List String → Result (Unit {0})
check_ids seen [] = ok tt
check_ids seen (id ∷ ids) =
    let rest : Result (Unit {0}) = check_ids (id ∷ seen) ids in
    if trim_space id == ""
    then err (conflict_error "task id is empty: %w")
    else if contains seen id
    then err (conflict_error "duplicate task in acoustic_buoy round: %w")
    else rest

unfoldable pub add_recovery_jobs : DiveWindow → List String → Result DiveWindow
unfolding check_ids
add_recovery_jobs b ids = do
  check_ids b.recovery_jobs ids
  refuse (ltb_ℤ b.capacity (pos (length b.recovery_jobs + length ids))) capacity_sentinel
  ok (record b { recovery_jobs = b.recovery_jobs ++ ids })
