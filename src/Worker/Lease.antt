-- ===== src/Worker/Lease.antt =====
-- internal/worker/lease.go: a lease with a time to live, in nanoseconds.
pub mod Exclusion
use ufo_observation_command.Base.{
  ℤ, pos, ◌+ℤ◌, ltb_ℤ, leb_ℤ, String, ◌==◌, Bool, true, false, not, ◌&&◌, ◌||◌, if◌then◌else◌,
}

pub record Lease : Type 0 where
  pub owner : String
  pub until : ℤ

abbrev pub new_lease : Lease
new_lease = record { owner = ""; until = pos 0 }

unfoldable pub acquire : String → ℤ → ℤ → Lease → Bool × Lease
acquire owner now ttl l =
    if owner == "" || leb_ℤ ttl (pos 0)
    then (false, l)
    else if not (l.owner == "") && ltb_ℤ now l.until && not (l.owner == owner)
    then (false, l)
    else (true, record { owner = owner; until = now +ℤ ttl })

unfoldable pub release : String → Lease → Bool × Lease
release owner l =
    if not (l.owner == owner) then (false, l) else (true, record { owner = ""; until = pos 0 })

unfoldable pub held_by : Lease → String → ℤ → Bool
held_by l owner now = l.owner == owner && ltb_ℤ now l.until
