-- ===== src/Telemetry/Lease/Fencing.antt =====
-- The promise of `FenceLease`: one holder at a time, and no commit under an old grant.
use ufo_observation_command.Base.{
  ℕ, ◌+◌, ◌%◌, ◌<◌, ℤ, two64, String, eq_iff, ◌≡◌, ◌≢◌, true, false, Option, none, some, List, [],
  ◌∷◌, arith,
}
use ufo_observation_command.Telemetry.Lease.{FenceLease, acquire, commit}

-- A request: the owner, the time and the time to live.
abbrev pub Request : Type 0
Request = String × ℤ × ℤ

-- The lease after a row of requests, and how many of them were granted.
unfoldable pub run : FenceLease → List Request → FenceLease
run l [] = l
run l ((owner, now, ttl) ∷ rest) = run (acquire owner now ttl l).1 rest

abbrev pub granted : Option ℕ → ℕ
granted none = 0
granted (some token) = 1

unfoldable pub grants : FenceLease → List Request → ℕ
grants l [] = 0
grants l ((owner, now, ttl) ∷ rest) =
    granted (acquire owner now ttl l).0 + grants (acquire owner now ttl l).1 rest

acquire-token :
    (owner : String) (now ttl : ℤ) (l : FenceLease)
    → (acquire owner now ttl l).1.token % two64
      ≡ (l.token + granted (acquire owner now ttl l).0) % two64
unfolding acquire
acquire-token owner now ttl l = ground arith

-- The token counts the grants, in 64 bits.
pub run-token :
    (l : FenceLease) (rs : List Request)
    → (run l rs).token % two64 ≡ (l.token + grants l rs) % two64
unfolding run grants
run-token l [] = omega arith
run-token l ((owner, now, ttl) ∷ rest) =
    omega (arith, run-token (acquire owner now ttl l).1 rest, acquire-token owner now ttl l)

granted-lt :
    (owner : String) (now ttl : ℤ) (l : FenceLease) (t : ℕ)
    → (acquire owner now ttl l).0 ≡ some t
    → ((acquire owner now ttl l).1.token ≡ t) × (t < two64)
unfolding acquire
granted-lt owner now ttl l t h = ground arith

-- A token that was granted is not good for a commit once another grant was made, up to 2^64 - 1 of
-- them later: whoever tries it, whenever.
pub stale_commit_fails :
    (owner : String) (now ttl : ℤ) (l : FenceLease) (t : ℕ) (rs : List Request) (committer : String)
    (at : ℤ)
    → (acquire owner now ttl l).0 ≡ some t
    → 0 < grants (acquire owner now ttl l).1 rs
    → grants (acquire owner now ttl l).1 rs < two64
    → commit (run (acquire owner now ttl l).1 rs) committer t at ≡ false
unfolding commit
stale_commit_fails owner now ttl l t rs committer at h some_grant few =
    ground (arith, run-token (acquire owner now ttl l).1 rs, granted-lt owner now ttl l t)

-- Whoever could commit now keeps everybody else out, and is the only one who can commit.
pub holder_excludes :
    (l : FenceLease) (owner other : String) (token token' : ℕ) (now ttl : ℤ)
    → commit l owner token now ≡ true
    → other ≢ owner
    → (acquire other now ttl l ≡ (none, l)) × (commit l other token' now ≡ false)
unfolding acquire commit
holder_excludes l owner other token token' now ttl h d = (
  ground (
    arith,
    eq_iff owner "",
    eq_iff owner l.owner,
    eq_iff l.owner other,
    eq_iff l.owner "",
    eq_iff other "",
  ),
  ground (arith, eq_iff owner l.owner, eq_iff other l.owner),
)
