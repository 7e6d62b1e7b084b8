-- ===== src/ArrayOps/Lease.antt =====
-- internal/arrayops/runtime.go, `Lease`: a worker's claim with a time to live. Times and durations
-- are nanoseconds; the sum of two of them does not wrap in the range that `time.Time` covers.
pub mod Exclusion
use ufo_observation_command.Base.{
  ℤ, pos, ◌+ℤ◌, ltb_ℤ, leb_ℤ, String, ◌==◌, Bool, true, false, not, ◌&&◌, ◌||◌, if◌then◌else◌,
}

pub record Lease : Type 0 where
  pub owner : String
  pub expires_at : ℤ

abbrev pub new_lease : Lease
new_lease = record { owner = ""; expires_at = pos 0 }

unfoldable pub acquire : String → ℤ → ℤ → Lease → Bool × Lease
acquire owner now ttl l =
    if owner == "" || leb_ℤ ttl (pos 0)
    then (false, l)
    else if not (l.owner == "") && ltb_ℤ now l.expires_at && not (l.owner == owner)
    then (false, l)
    else (true, record { owner = owner; expires_at = now +ℤ ttl })

unfoldable pub renew : String → ℤ → ℤ → Lease → Bool × Lease
renew owner now ttl l =
    if owner == "" || not (owner == l.owner) || not (ltb_ℤ now l.expires_at) || leb_ℤ ttl (pos 0)
    then (false, l)
    else (true, record l { expires_at = now +ℤ ttl })

unfoldable pub release : String → Lease → Bool × Lease
release owner l =
    if owner == "" || not (owner == l.owner)
    then (false, l)
    else (true, record { owner = ""; expires_at = pos 0 })
