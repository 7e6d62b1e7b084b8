-- ===== src/Domain/RecoveryJob/Moves.antt =====
-- What sequences of moves do to a recovery job.
use ufo_observation_command.Base.{
  ℕ, zero, suc, ◌+◌, ◌≤◌, ◌<◌, ℤ, inc64, ◌≤ℤ◌, String, ◌==◌, eq_iff, ◌≡◌, ◌≢◌, sym, subst, ap, ◌∙◌,
  ◌||◌, true, is_some, List, [], ◌∷◌, length, All, Result, ok, ◌>>=◌, if◌then◌else◌, arith,
  Result-cases, inl, inr,
}
use ufo_observation_command.Domain.RecoveryJob.{RecoveryJob, can_move_to, move}

-- The moves of a sequence, each to a status and at a time, until one is refused.
unfoldable pub moves : RecoveryJob → List (String × ℤ) → Result RecoveryJob
moves s [] = ok s
moves s ((next, now) ∷ rest) = move s next now >>= λ t. moves t rest

-- How far a status is in the life of a job; what is no status is out of it.
unfoldable pub stage : String → ℕ
stage status =
    if status == "queued"
    then 1
    else if status == "completed"
    then 2
    else if status == "activation_pending"
    then 3
    else if status == "accepted"
    then 4
    else if status == "in_progress"
    then 5
    else if status == "verified" || status == "rejected"
    then 6
    else if status == "archived"
    then 7
    else 0

stage_at : (s status : String) → (s == status) ≡ true → stage s ≡ stage status
stage_at s status e = ap stage ((eq_iff s status).0 e)

-- The stages of all statuses.
stages :
    (s : String)
    → ((s == "queued") ≡ true → stage s ≡ 1)
      × ((s == "completed") ≡ true → stage s ≡ 2)
      × ((s == "activation_pending") ≡ true → stage s ≡ 3)
      × ((s == "accepted") ≡ true → stage s ≡ 4)
      × ((s == "in_progress") ≡ true → stage s ≡ 5)
      × ((s == "verified") ≡ true → stage s ≡ 6)
      × ((s == "rejected") ≡ true → stage s ≡ 6)
      × ((s == "archived") ≡ true → stage s ≡ 7)
unfolding stage
stages s = (
  stage_at s "queued",
  stage_at s "completed",
  stage_at s "activation_pending",
  stage_at s "accepted",
  stage_at s "in_progress",
  stage_at s "verified",
  stage_at s "rejected",
  stage_at s "archived",
)

can_move_to-stage :
    (s next : String) → can_move_to s next ≡ true → (stage next ≡ suc (stage s)) × (0 < stage s)
unfolding can_move_to
can_move_to-stage s next h = ground (arith, stages s, stages next)

stage_le : (s : String) → stage s ≤ 7
unfolding stage
stage_le s = ground arith

stage_two : (s : String) → stage s ≡ 2 → (s == "completed") ≡ true
unfolding stage
stage_two s h = ground arith

stage_four : (s : String) → stage s ≡ 4 → (s == "accepted") ≡ true
unfolding stage
stage_four s h = ground arith

-- The times of completion and acceptance are there from those stages on.
abbrev pub IsRecorded : RecoveryJob → Type 0
IsRecorded s =
    (2 ≤ stage s.status → is_some s.completed_at ≡ true)
    × (4 ≤ stage s.status → is_some s.accepted_at ≡ true)

-- A version after some changes.
abbrev pub bumped : ℕ → ℤ → ℤ
bumped zero version = version
bumped (suc n) version = bumped n (inc64 version)

-- What a move that succeeds does.
move_lem :
    (s t : RecoveryJob) (next : String) (now : ℤ)
    → move s next now ≡ ok t
    → (stage t.status ≡ suc (stage s.status))
      × (0 < stage s.status)
      × (t.version ≡ inc64 s.version)
      × (t.expires_at ≡ s.expires_at)
      × (next ≢ "archived" → now ≤ℤ s.expires_at)
      × (IsRecorded s → IsRecorded t)
unfolding move
move_lem s t next now h =
    let can : can_move_to s.status next ≡ true = ground arith in
    let up = can_move_to-stage s.status next can in
    let reached : t.status ≡ next = ground arith in
    (
      ap stage reached ∙ up.0,
      up.1,
      ground arith,
      ground arith,
      λ live. ground (arith, eq_iff next "archived"),
      λ r. (
        λ two. ground (arith, up, reached, ap stage reached, r.0, stage_two next),
        λ four. ground (arith, up, reached, ap stage reached, r.1, stage_four next),
      ),
    )

abbrev pub InTime : ℤ → String × ℤ → Type 0
InTime expires_at (next, now) = next ≢ "archived" → now ≤ℤ expires_at

-- Moves that succeed, one after the other, each take the job one stage further and add one to its
-- version, so there are at most six; each that is not to the archive is at a time at which the job
-- has not expired; and the times of completion and of acceptance stay recorded.
pub moves_lem :
    (s t : RecoveryJob) (steps : List (String × ℤ))
    → moves s steps ≡ ok t
    → (stage t.status ≡ stage s.status + length steps)
      × (length steps ≤ 6)
      × (t.version ≡ bumped (length steps) s.version)
      × All (InTime s.expires_at) steps
      × (IsRecorded s → IsRecorded t)
unfolding moves
moves_lem s t [] h =
    let same : s ≡ t = ground arith in
    (
      ap (λ j. stage j.status) (sym same) ∙ omega arith,
      omega arith,
      ap (λ j. j.version) (sym same),
      tt,
      subst IsRecorded same,
    )
moves_lem s t ((next, now) ∷ rest) h = elim (Result-cases (move s next now)) [
  | inl (e, q) ↦ absurd (ground arith)
  | inr (u, q) ↦
      let one = move_lem s u next now q in
      let more = moves_lem u t rest (ground arith) in
      (
        omega (arith, one.0, more.0),
        omega (arith, one.0, one.1, more.0, stage_le t.status),
        more.2 ∙ ap (bumped (length rest)) one.2,
        (one.4, subst (λ at. All (InTime at) rest) one.3 more.3),
        λ r. more.4 (one.5 r),
      )
]
