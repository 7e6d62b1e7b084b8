-- ===== src/Repository/Expiry/Complete.antt =====
-- internal/repository/reconcile.go: which jobs the SELECT leaves out.
use ufo_observation_command.Base.{
  ℕ, zero, suc, ◌<◌, ℤ, ltb_ℤ, String, string_key, eq_iff, Bool, true, some, some-injective, List,
  [], ◌∷◌, map, take, keep, length, All, Dict, get, ◌≡◌, ◌≢◌, ap, ◌∙◌, Bool-cases, inl, inr, arith,
  ◌==◌,
}
use ufo_observation_command.Domain.RecoveryJob.{RecoveryJob}
use ufo_observation_command.Repository.Tables.{Tables}
use ufo_observation_command.Repository.Expiry.{insert_by_expiry, by_expiry, is_due, due_ids}
use ufo_observation_command.Repository.Expiry.Selection.{Due}

abbrev Row : Type 0
Row = String × RecoveryJob

-- What holds of all sorted rows holds of all rows, and so for the rows up to a limit not reached.
module _ (P : Row → Type 0) where
  insert-All : (r : Row) (rs : List Row) → All P (insert_by_expiry r rs) → P r × All P rs
  insert-All r [] h = (h.0, tt)
  insert-All r (o ∷ rs) h = elim (Bool-cases (ltb_ℤ o.1.expires_at r.1.expires_at)) [
    | inl t ↦
        let h' : P o × All P (insert_by_expiry r rs) = rw (t, insert_by_expiry, All) at h in
        let more = insert-All r rs h'.1 in (more.0, (h'.0, more.1))
    | inr t ↦ let h' : P r × (P o × All P rs) = rw (t, insert_by_expiry, All) at h in h'
  ]

  sort-All : (rs : List Row) → All P (by_expiry rs) → All P rs
  unfolding by_expiry
  sort-All [] h = tt
  sort-All (r ∷ rs) h = let more = insert-All r (by_expiry rs) h in (more.0, sort-All rs more.1)

  take-All :
      (n : ℕ) (rs : List Row)
      → length (map (λ r. r.0) (take n rs)) < n
      → All P (take n rs)
      → All P rs
  take-All zero rs lt h = absurd (omega arith)
  take-All (suc n) [] lt h = tt
  take-All (suc n) (r ∷ rs) lt h = (h.0, take-All n rs (omega arith) h.1)

ids-All : (P : String → Type 0) (rs : List Row) → All P (map (λ r. r.0) rs) → All (λ r. P r.0) rs
ids-All P [] h = tt
ids-All P (r ∷ rs) h = (h.0, ids-All P rs h.1)

-- An entry that passes the test is kept.
kept :
    (p : Row → Bool) (m : Dict String RecoveryJob) (k : String) (s : RecoveryJob)
    → get m k ≡ some s
    → p (k, s) ≡ true
    → All (λ r. r.0 ≢ k) (keep p m)
    → ⊥
unfolding get
kept p [] k s e t h = absurd cc
kept p ((b, v) ∷ m) k s e t h = elim (Bool-cases (b == k)) [
  | inl same ↦
      let at_b : b ≡ k = (eq_iff b k).0 same in
      let here : v ≡ s = some-injective v s (rw (same, get) at e) in
      let passes : p (b, v) ≡ true = ap (λ x. p (x, v)) at_b ∙ ap (λ x. p (k, x)) here ∙ t in
      let h' : (b ≢ k) × All (λ r. r.0 ≢ k) (keep p m) = rw (passes, keep, All) at h in h'.0 at_b
  | inr other ↦ elim (Bool-cases (p (b, v))) [
    | inl passes ↦
        let h' : (b ≢ k) × All (λ r. r.0 ≢ k) (keep p m) = rw (passes, keep, All) at h in
        kept p m k s (rw (other, get) at e) t h'.1
    | inr fails ↦ kept p m k s (rw (other, get) at e) t (rw (fails, keep, All) at h)
  ]
]

-- With fewer jobs than the limit allows, every job that is due is among them.
pub due_ids_complete :
    (locked : String → Bool) (now : ℤ) (limit : ℕ) (t : Tables) (k : String)
    → length (due_ids locked now limit t) < limit
    → Due locked now t k
    → All (λ x. x ≢ k) (due_ids locked now limit t)
    → ⊥
unfolding due_ids
due_ids_complete locked now limit t k few (s, found, open_s, over, free) absent =
    kept (is_due locked now) t.jobs k s found (ground (arith, open_s, over, free))
      (sort-All _ _ (take-All _ limit _ few (ids-All _ _ absent)))
