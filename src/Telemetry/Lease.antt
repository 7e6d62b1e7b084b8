-- ===== src/Telemetry/Lease.antt =====
-- internal/telemetry/coordination.go, `FenceLease`: a lease whose every grant has a fresh token, so
-- that a holder of an old grant cannot commit. Tokens are `uint64`.
pub mod Fencing
use ufo_observation_command.Base.{
  ℕ, ◌+◌, ◌%◌, ℤ, pos, ◌+ℤ◌, ltb_ℤ, leb_ℤ, two64, ◌==ℕ◌, String, ◌==◌, Bool, true, false, not, ◌&&◌,
  ◌||◌, Option, none, some, if◌then◌else◌,
}

pub record FenceLease : Type 0 where
  pub owner : String
  pub token : ℕ
  pub expires_at : ℤ

abbrev pub new_fence_lease : FenceLease
new_fence_lease = record { owner = ""; token = 0; expires_at = pos 0 }

-- `none` is the refusal `(0, false)`.
unfoldable pub acquire : String → ℤ → ℤ → FenceLease → Option ℕ × FenceLease
acquire owner now ttl l =
    if owner == ""
      || leb_ℤ ttl (pos 0)
      || (not (l.owner == "") && ltb_ℤ now l.expires_at && not (l.owner == owner))
    then (none, l)
    else let token : ℕ = (l.token + 1) % two64 in
      (some token, record { owner = owner; token = token; expires_at = now +ℤ ttl })

unfoldable pub commit : FenceLease → String → ℕ → ℤ → Bool
commit l owner token now =
    not (owner == "") && owner == l.owner && token ==ℕ l.token && ltb_ℤ now l.expires_at
