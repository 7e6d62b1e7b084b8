-- ===== src/ArrayOps/Lease/Exclusion.antt =====
-- The promise of `Lease`: between a grant and its end nobody else gets the lease.
use ufo_observation_command.Base.{
  ℤ, ◌+ℤ◌, ◌<ℤ◌, String, eq_iff, ◌≡◌, ◌≢◌, refl, true, List, [], ◌∷◌, All, arith, ap, ◌∙◌,
}
use ufo_observation_command.ArrayOps.Lease.{Lease, acquire, renew, release}

-- A call, with the time at which it is made.
pub data Call : Type 0 where
  acquires : String → ℤ → ℤ → Call
  renews : String → ℤ → ℤ → Call
  releases : String → ℤ → Call

unfoldable pub step : Lease → Call → Lease
step l (acquires owner now ttl) = (acquire owner now ttl l).1
step l (renews owner now ttl) = (renew owner now ttl l).1
step l (releases owner now) = (release owner l).1

unfoldable pub run : Lease → List Call → Lease
unfolding step
run l [] = l
run l (c ∷ cs) = run (step l c) cs

-- A call by somebody else, before the time.
abbrev pub Foreign : String → ℤ → Call → Type 0
Foreign owner end (acquires other now ttl) = (other ≢ owner) × (now <ℤ end)
Foreign owner end (renews other now ttl) = (other ≢ owner) × (now <ℤ end)
Foreign owner end (releases other now) = (other ≢ owner) × (now <ℤ end)

step-Foreign : (l : Lease) (c : Call) → l.owner ≢ "" → Foreign l.owner l.expires_at c → step l c ≡ l
unfolding step acquire renew release
step-Foreign l (acquires other now ttl) n f =
    ground (arith, eq_iff l.owner "", eq_iff other "", eq_iff l.owner other, f.0, f.1)
step-Foreign l (renews other now ttl) n f = ground (arith, eq_iff other l.owner, f.0, f.1)
step-Foreign l (releases other now) n f = ground (arith, eq_iff other l.owner, f.0, f.1)

run-Foreign :
    (l : Lease) (cs : List Call)
    → l.owner ≢ ""
    → All (Foreign l.owner l.expires_at) cs
    → run l cs ≡ l
unfolding run
run-Foreign l [] n f = refl
run-Foreign l (c ∷ cs) n f = ap (λ k. run k cs) (step-Foreign l c n f.0) ∙ run-Foreign l cs n f.1

acquired :
    (owner : String) (now ttl : ℤ) (l : Lease)
    → (acquire owner now ttl l).0 ≡ true
    → (owner ≢ "")
      × ((acquire owner now ttl l).1 ≡ record { owner = owner; expires_at = now +ℤ ttl })
unfolding acquire
acquired owner now ttl l h = (ground (arith, eq_iff owner ""), ground arith)

-- After a grant, calls of other owners before its end change nothing: acquisitions, renewals and
-- releases in any order.
pub grant_kept :
    (owner : String) (now ttl : ℤ) (l : Lease) (cs : List Call)
    → (acquire owner now ttl l).0 ≡ true
    → All (Foreign owner (now +ℤ ttl)) cs
    → run (acquire owner now ttl l).1 cs ≡ record { owner = owner; expires_at = now +ℤ ttl }
grant_kept owner now ttl l cs h f =
    let (n, e) = acquired owner now ttl l h in ap (λ k. run k cs) e ∙ run-Foreign _ cs n f
