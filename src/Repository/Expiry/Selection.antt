-- ===== src/Repository/Expiry/Selection.antt =====
-- internal/repository/reconcile.go: which jobs the SELECT gives.
use ufo_observation_command.Base.{
  ℕ, zero, suc, ◌≤◌, ℤ, ltb_ℤ, ◌<ℤ◌, String, string_key, eq_iff, Bool, true, false, some, none,
  List, [], ◌∷◌, map, take, keep, length, All, Dict, Distinct, get, ◌≡◌, ◌≢◌, sym, Bool-cases, inl,
  inr, arith,
}
use ufo_observation_command.Domain.RecoveryJob.{RecoveryJob}
use ufo_observation_command.Domain.Distinct.{NoRepeats}
use ufo_observation_command.Repository.Tables.{Tables}
use ufo_observation_command.Repository.Expiry.{
  is_open, insert_by_expiry, by_expiry, is_due, due_ids,
}

abbrev Row : Type 0
Row = String × RecoveryJob

-- No key comes twice.
abbrev OneEach : List Row → Type 0
OneEach [] = Unit
OneEach (r ∷ rs) = All (λ o. r.0 ≢ o.0) rs × OneEach rs

-- What holds of all rows holds of those that the query keeps, in its order and within its limit.
module _ (P : Row → Type 0) where
  All-keep : (p : Row → Bool) (rs : List Row) → All P rs → All (λ r. P r × (p r ≡ true)) (keep p rs)
  All-keep p [] h = tt
  All-keep p (r ∷ rs) h = elim (Bool-cases (p r)) [
    | inl t ↦ rw (t, All) ((h.0, t), All-keep p rs h.1)
    | inr t ↦ rw (t, All) (All-keep p rs h.1)
  ]

  All-insert : (r : Row) (rs : List Row) → P r → All P rs → All P (insert_by_expiry r rs)
  All-insert r [] p h = (p, tt)
  All-insert r (o ∷ rs) p h = elim (Bool-cases (ltb_ℤ o.1.expires_at r.1.expires_at)) [
    | inl t ↦ rw (t, insert_by_expiry, All) (h.0, All-insert r rs p h.1)
    | inr t ↦ rw (t, insert_by_expiry, All) (p, h)
  ]

  All-sort : (rs : List Row) → All P rs → All P (by_expiry rs)
  unfolding by_expiry
  All-sort [] h = tt
  All-sort (r ∷ rs) h = All-insert r (by_expiry rs) h.0 (All-sort rs h.1)

  All-take : (n : ℕ) (rs : List Row) → All P rs → All P (take n rs)
  All-take zero rs h = tt
  All-take (suc n) [] h = tt
  All-take (suc n) (r ∷ rs) h = (h.0, All-take n rs h.1)

weaken : (P Q : Row → Type 0) (rs : List Row) → ((r : Row) → P r → Q r) → All P rs → All Q rs
weaken P Q [] f h = tt
weaken P Q (r ∷ rs) f h = (f r h.0, weaken P Q rs f h.1)

OneEach-keep : (p : Row → Bool) (rs : List Row) → OneEach rs → OneEach (keep p rs)
OneEach-keep p [] h = tt
OneEach-keep p (r ∷ rs) h = elim (Bool-cases (p r)) [
  | inl t ↦
      rw (t, OneEach)
        (
          weaken _ (λ o. r.0 ≢ o.0) (keep p rs) (λ o x. x.0) (All-keep (λ o. r.0 ≢ o.0) p rs h.0),
          OneEach-keep p rs h.1,
        )
  | inr t ↦ rw (t, OneEach) (OneEach-keep p rs h.1)
]

OneEach-insert :
    (r : Row) (rs : List Row)
    → All (λ o. r.0 ≢ o.0) rs
    → OneEach rs
    → OneEach (insert_by_expiry r rs)
OneEach-insert r [] n h = (tt, tt)
OneEach-insert r (o ∷ rs) n h = elim (Bool-cases (ltb_ℤ o.1.expires_at r.1.expires_at)) [
  | inl t ↦
      rw (t, insert_by_expiry, OneEach)
        (All-insert (λ x. o.0 ≢ x.0) r rs (λ e. n.0 (sym e)) h.0, OneEach-insert r rs n.1 h.1)
  | inr t ↦ rw (t, insert_by_expiry, OneEach) (n, h)
]

OneEach-sort : (rs : List Row) → OneEach rs → OneEach (by_expiry rs)
unfolding by_expiry
OneEach-sort [] h = tt
OneEach-sort (r ∷ rs) h =
    OneEach-insert r (by_expiry rs) (All-sort (λ o. r.0 ≢ o.0) rs h.0) (OneEach-sort rs h.1)

OneEach-take : (n : ℕ) (rs : List Row) → OneEach rs → OneEach (take n rs)
OneEach-take zero rs h = tt
OneEach-take (suc n) [] h = tt
OneEach-take (suc n) (r ∷ rs) h = (All-take (λ o. r.0 ≢ o.0) n rs h.0, OneEach-take n rs h.1)

-- The entries of a map are what it gives under their keys.
absent : (m : Dict String RecoveryJob) (a : String) → get m a ≡ none → All (λ o. a ≢ o.0) m
unfolding get
absent [] a h = tt
absent ((b, v) ∷ m) a h = (ground (arith, eq_iff b a), absent m a (ground (arith, eq_iff b a)))

OneEach-entries : (m : Dict String RecoveryJob) → Distinct m → OneEach m
OneEach-entries [] h = tt
OneEach-entries ((a, v) ∷ m) h = (absent m a h.0, OneEach-entries m h.1)

entry_found :
    (b : String) (v : RecoveryJob) (m : Dict String RecoveryJob) (r : Row)
    → (b ≢ r.0) × (get m r.0 ≡ some r.1)
    → get ((b, v) ∷ m) r.0 ≡ some r.1
unfolding get
entry_found b v m r h = let new = h.0 in let old = h.1 in ground (arith, eq_iff b r.0, new, old)

both : (P Q : Row → Type 0) (rs : List Row) → All P rs → All Q rs → All (λ r. P r × Q r) rs
both P Q [] p q = tt
both P Q (r ∷ rs) p q = ((p.0, q.0), both P Q rs p.1 q.1)

entries : (m : Dict String RecoveryJob) → Distinct m → All (λ r. get m r.0 ≡ some r.1) m
unfolding get
entries [] h = tt
entries ((a, v) ∷ m) h = (
  ground (arith, eq_iff a a),
  weaken _ _ m (entry_found a v m)
      (both (λ o. a ≢ o.0) (λ r. get m r.0 ≡ some r.1) m (absent m a h.0) (entries m h.1)),
)

-- A job that is open, whose time is over and whose lock is free.
abbrev pub Due : (String → Bool) → ℤ → Tables → String → Type 0
Due locked now t id =
    (s : RecoveryJob) × (get t.jobs id ≡ some s)
    × (is_open s ≡ true)
    × (s.expires_at <ℤ now)
    × (locked id ≡ false)

All-ids : (P : String → Type 0) (rs : List Row) → All (λ r. P r.0) rs → All P (map (λ r. r.0) rs)
All-ids P [] h = tt
All-ids P (r ∷ rs) h = (h.0, All-ids P rs h.1)

NoRepeats-ids : (rs : List Row) → OneEach rs → NoRepeats (map (λ r. r.0) rs)
NoRepeats-ids [] h = tt
NoRepeats-ids (r ∷ rs) h = (All-ids (λ y. r.0 ≢ y) rs h.0, NoRepeats-ids rs h.1)

length-ids : (n : ℕ) (rs : List Row) → length (map (λ r. r.0) (take n rs)) ≤ n
length-ids zero rs = omega arith
length-ids (suc n) [] = omega arith
length-ids (suc n) (r ∷ rs) = omega (arith, length-ids n rs)

module _ (locked : String → Bool) (now : ℤ) (limit : ℕ) (t : Tables)
    (distinct : Distinct t.jobs) where
  Due-row :
      (r : Row) → (get t.jobs r.0 ≡ some r.1) × (is_due locked now r ≡ true) → Due locked now t r.0
  Due-row r h = let test = h.1 in (r.1, h.0, ground arith, ground arith, ground arith)

  pub due_ids-Due : All (Due locked now t) (due_ids locked now limit t)
  unfolding due_ids
  due_ids-Due =
      let kept = All-keep _ (is_due locked now) t.jobs (entries t.jobs distinct) in
      All-ids _ _ (All-take _ limit _ (All-sort _ _ (weaken _ _ _ Due-row kept)))

  pub due_ids-NoRepeats : NoRepeats (due_ids locked now limit t)
  unfolding due_ids
  due_ids-NoRepeats = NoRepeats-ids _ (
      OneEach-take limit _ (
        OneEach-sort _ (OneEach-keep (is_due locked now) t.jobs (OneEach-entries t.jobs distinct))))

  pub length-due_ids : length (due_ids locked now limit t) ≤ limit
  unfolding due_ids
  length-due_ids = length-ids limit _
