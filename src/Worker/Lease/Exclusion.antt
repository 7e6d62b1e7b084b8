-- ===== src/Worker/Lease/Exclusion.antt =====
-- The promise of the worker's lease.
use ufo_observation_command.Base.{
  ℤ, ◌+ℤ◌, ◌<ℤ◌, String, eq_iff, eq_refl, ◌≡◌, ◌≢◌, true, false, arith,
}
use ufo_observation_command.ArrayOps.Lease as Array
use ufo_observation_command.Worker.Lease.{Lease, acquire, release, held_by}

-- An owner that acquired the lease holds it until its time is over. As long as somebody holds it,
-- another owner does not, cannot acquire it and cannot release it.
pub held_excludes :
    (owner other : String) (now ttl later other_ttl : ℤ) (l : Lease)
    → (acquire owner now ttl l).0 ≡ true
    → later <ℤ (now +ℤ ttl)
    → other ≢ owner
    → let held = (acquire owner now ttl l).1 in
      (held_by held owner later ≡ true)
      × (held_by held other later ≡ false)
      × (acquire other later other_ttl held ≡ (false, held))
      × (release other held ≡ (false, held))
unfolding acquire held_by release
held_excludes owner other now ttl later other_ttl l h t d = (
  ground (arith, eq_refl owner),
  ground (arith, eq_iff owner other),
  ground (arith, eq_iff owner other, eq_iff owner ""),
  ground (arith, eq_iff owner other),
)

-- The lease of internal/worker and the one of internal/arrayops grant the same requests and are the
-- same afterwards.
pub acquire_agrees :
    (owner : String) (now ttl : ℤ) (holder : String) (until : ℤ)
    → let here = acquire owner now ttl (record { owner = holder; until = until }) in
      let there = Array.acquire owner now ttl (record { owner = holder; expires_at = until }) in
      (here.0 ≡ there.0) × (here.1.owner ≡ there.1.owner) × (here.1.until ≡ there.1.expires_at)
unfolding acquire Array.acquire
acquire_agrees owner now ttl holder until = (ground arith, ground arith, ground arith)
