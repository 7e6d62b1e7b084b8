-- ===== src/Domain/StateMachine/Reachable/Scan.antt =====
-- internal/domain/state_machine.go: one round of the search of Reachable.
use ufo_observation_command.Base.{
  ℕ, suc, ◌+◌, ◌≤◌, String, string_key, ◌==◌, eq_iff, true, false, not, ◌&&◌, ◌||◌, if◌then◌else◌,
  none, some, List, [], ◌∷◌, ◌++◌, length, length-append, Dict, get, ◌≡◌, refl, sym, ap, Bool-cases,
  inl, inr, arith,
}
use ufo_observation_command.Domain.StateMachine.{StateMachine, member, allows}
use ufo_observation_command.Domain.StateMachine.Reachable.{
  Search, destinations, visit, visit_all, all_destinations,
}

pub member-append :
    (xs ys : List String) (x : String) → member (xs ++ ys) x ≡ (member xs x || member ys x)
member-append [] ys x = refl
member-append (z ∷ xs) ys x = ground (arith, member-append xs ys x)

visited-visit :
    (s : Search) (next x : String)
    → member (visit s next).visited x ≡ (member s.visited x || next == x)
unfolding visit
visited-visit s next x = elim (Bool-cases (next == x)) [
  | inl e ↦ let same : next ≡ x = (eq_iff next x).0 e in ground (arith, ap (member s.visited) same)
  | inr e ↦ ground arith
]

queue-visit :
    (s : Search) (next x : String)
    → member (visit s next).queue x ≡ (member s.queue x || (next == x && not (member s.visited x)))
unfolding visit
queue-visit s next x = elim (Bool-cases (next == x)) [
  | inl e ↦
      let same : next ≡ x = (eq_iff next x).0 e in
      ground (arith, ap (member s.visited) same, member-append s.queue (next ∷ []) x)
  | inr e ↦ ground (arith, member-append s.queue (next ∷ []) x)
]

pub visited-visit_all :
    (s : Search) (ds : List String) (x : String)
    → member (visit_all s ds).visited x ≡ (member s.visited x || member ds x)
unfolding visit_all
visited-visit_all s [] x = ground arith
visited-visit_all s (d ∷ ds) x =
    ground (arith, visited-visit_all (visit s d) ds x, visited-visit s d x)

pub queue-visit_all :
    (s : Search) (ds : List String) (x : String)
    → member (visit_all s ds).queue x
      ≡ (member s.queue x || (member ds x && not (member s.visited x)))
unfolding visit_all
queue-visit_all s [] x = ground arith
queue-visit_all s (d ∷ ds) x =
    ground (arith, queue-visit_all (visit s d) ds x, queue-visit s d x, visited-visit s d x)

-- The entries of a list that were not met yet.
abbrev pub unseen : List String → List String → ℕ
unseen visited [] = 0
unseen visited (x ∷ xs) =
    let rest : ℕ = unseen visited xs in if member visited x then rest else suc rest

unseen-le :
    (visited : List String) (v : String) (xs : List String)
    → unseen (v ∷ visited) xs ≤ unseen visited xs
unseen-le visited v [] = omega arith
unseen-le visited v (x ∷ xs) = ground (arith, unseen-le visited v xs)

unseen-lt :
    (visited : List String) (v : String) (xs : List String)
    → member xs v ≡ true
    → member visited v ≡ false
    → suc (unseen (v ∷ visited) xs) ≤ unseen visited xs
unseen-lt visited v [] h n = absurd (ground arith)
unseen-lt visited v (x ∷ xs) h n = elim (Bool-cases (x == v)) [
  | inl e ↦
      let same : x ≡ v = (eq_iff x v).0 e in
      ground (arith, unseen-le visited v xs, ap (member visited) same, eq_iff v x, sym same)
  | inr e ↦ ground (arith, unseen-lt visited v xs, unseen-le visited v xs)
]

-- What is left to do does not grow while a state's destinations are visited.
module _ (all : List String) where
  abbrev pub work : Search → ℕ
  work s = unseen s.visited all + length s.queue

  work-visit : (s : Search) (d : String) → member all d ≡ true → work (visit s d) ≤ work s
  unfolding visit
  work-visit s d h = elim (Bool-cases (member s.visited d)) [
    | inl old ↦ rw old (omega arith)
    | inr new ↦
        rw new (omega (arith, unseen-lt s.visited d all h new, length-append s.queue (d ∷ [])))
  ]

  pub work-visit_all :
      (s : Search) (ds : List String)
      → ((d : String) → member ds d ≡ true → member all d ≡ true)
      → work (visit_all s ds) ≤ work s
  unfolding visit_all
  work-visit_all s [] h = omega arith
  work-visit_all s (d ∷ ds) h =
      let here : member all d ≡ true = h d (ground (arith, eq_iff d d)) in
      let there = λ (x : String) (i : member ds x ≡ true). h x (ground (arith, i)) in
      omega (arith, work-visit_all (visit s d) ds there, work-visit s d here)

abbrev destinations_in : Dict String (List String) → String → List String
destinations_in states current = elim (get states current) [ none ↦ [] | some next ↦ next ]

-- The destinations of a state are among all destinations.
destinations_in-all :
    (states : Dict String (List String)) (c d : String)
    → member (destinations_in states c) d ≡ true
    → member (all_destinations states) d ≡ true
unfolding get
destinations_in-all [] c d h = absurd (ground arith)
destinations_in-all ((from, next) ∷ states) c d h = elim (Bool-cases (from == c)) [
  | inl e ↦
      let h' : member next d ≡ true = rw (e, destinations_in, get) at h in
      ground (arith, member-append next (all_destinations states) d, h')
  | inr e ↦
      let h' : member (destinations_in states c) d ≡ true = rw (e, destinations_in, get) at h in
      ground
        (arith, member-append next (all_destinations states) d, destinations_in-all states c d h')
]

pub destinations-all :
    (m : StateMachine) (c d : String)
    → member (destinations m c) d ≡ true
    → member (all_destinations m.states) d ≡ true
destinations-all m c d h = destinations_in-all m.states c d h

pub allows-destinations :
    (m : StateMachine) (s t : String) → allows m s t ≡ member (destinations m s) t
unfolding allows
allows-destinations m s t = ground arith
