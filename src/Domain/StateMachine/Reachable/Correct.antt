-- ===== src/Domain/StateMachine/Reachable/Correct.antt =====
-- internal/domain/state_machine.go: Reachable ends, and gives exactly the states that walks reach.
use ufo_observation_command.Base.{
  ℕ, zero, suc, ◌≤◌, String, ◌==◌, eq_iff, Bool, true, false, ◌||◌, none, some, some-injective,
  List, [], ◌∷◌, length, ◌≡◌, ◌↔◌, ◌⊎◌, refl, sym, ap, subst, ◌∙◌, Bool-cases, inl, inr, arith,
}
use ufo_observation_command.Domain.StateMachine.{StateMachine, member, allows}
use ufo_observation_command.Domain.StateMachine.Reachable.{
  Search, destinations, visit_all, search_from, insert_string, sort_strings, all_destinations,
  universe, reachable,
}
use ufo_observation_command.Domain.StateMachine.Reachable.Scan.{
  visited-visit_all, queue-visit_all, unseen, work, work-visit_all, destinations-all,
  allows-destinations,
}

List-cases {ℓ} :
    {A : Type ℓ} (xs : List A) → (xs ≡ []) ⊎ ((x : A) × (rest : List A) × (xs ≡ x ∷ rest))
List-cases [] = inl refl
List-cases (x ∷ rest) = inr (x, rest, refl)

-- One edge after another.
pub data Reach (m : StateMachine) (start : String) : String → Type 0 where
  here : Reach m start start
  step : {s t : String} → Reach m start s → allows m s t ≡ true → Reach m start t

module _ (m : StateMachine) (start : String) where
  record Inv (s : Search) : Type 0 where
    source : member s.visited start ≡ true
    sound : (x : String) → member s.visited x ≡ true → Reach m start x
    waiting : (x : String) → member s.queue x ≡ true → member s.visited x ≡ true
    closed :
        (x y : String)
        → member s.visited x ≡ true
        → allows m x y ≡ true
        → (member s.queue x ≡ true) ⊎ (member s.visited y ≡ true)

  abbrev round : Search → String → List String → Search
  round s c rest = visit_all (record s { queue = rest }) (destinations m c)

  Or-cases : (a b : Bool) → (a || b) ≡ true → (a ≡ true) ⊎ (b ≡ true)
  Or-cases true b h = inl refl
  Or-cases false b h = inr h

  Inv-round :
      (s : Search) (c : String) (rest : List String)
      → s.queue ≡ c ∷ rest
      → Inv s
      → Inv (round s c rest)
  Inv-round s c rest e h =
      let s' : Search = record s { queue = rest } in
      let ds = destinations m c in
      let seen = λ (x : String). visited-visit_all s' ds x in
      let queue = λ (x : String). queue-visit_all s' ds x in
      let queued : (x : String) → member s.queue x ≡ (c == x || member rest x) =
        λ x. ap (λ q. member q x) e in
      let c_seen : member s.visited c ≡ true = h.waiting c (ground (arith, queued c, eq_iff c c)) in
      record {
        source = ground (arith, seen start, h.source);
        sound = λ x v. elim (Or-cases (member s.visited x) (member ds x) (sym (seen x) ∙ v)) [
          | inl old ↦ h.sound x old
          | inr new ↦ step (h.sound c c_seen) (allows-destinations m c x ∙ new)
        ];
        waiting = λ x q. ground (arith, seen x, queue x, q, h.waiting x, queued x);
        closed = λ x y v edge. elim (Bool-cases (c == x)) [
          | inl e ↦
              let next : member ds y ≡ true =
                ap (λ z. member (destinations m z) y) ((eq_iff c x).0 e)
                ∙ sym (allows-destinations m x y)
                ∙ edge in
              inr (seen y ∙ ground (arith, next))
          | inr e ↦ elim (Bool-cases (member s.visited x)) [
            | inl old ↦ elim (h.closed x y old edge) [
              | inl q ↦ inl (ground (arith, queue x, queued x, q))
              | inr met ↦ inr (ground (arith, seen y, met))
            ]
            | inr new ↦ inl (ground (arith, queue x, seen x, v))
          ]
        ];
      }

  -- The search ends within as many rounds as there is work.
  pub search_from_ends :
      (rounds : ℕ) (s : Search)
      → work (universe m start) s ≤ rounds
      → (final : Search) × (search_from m rounds s ≡ some final)
  unfolding search_from
  search_from_ends zero s h = elim (List-cases s.queue) [
    | inl e ↦ (s, simp (e, search_from))
    | inr (c, rest, e) ↦ absurd (omega (arith, ap length e))
  ]
  search_from_ends (suc rounds) s h = elim (List-cases s.queue) [
    | inl e ↦ (s, simp (e, search_from))
    | inr (c, rest, e) ↦
        let less =
          work-visit_all (universe m start) (record s { queue = rest }) (destinations m c)
            (λ d i. ground (arith, destinations-all m c d i)) in
        let (final, ends) = search_from_ends rounds (round s c rest) (omega (arith, ap length e)) in
        (final, rw (e, search_from) ends)
  ]

  search_from-Inv :
      (rounds : ℕ) (s final : Search)
      → Inv s
      → search_from m rounds s ≡ some final
      → Inv final × (final.queue ≡ [])
  unfolding search_from
  search_from-Inv zero s final h r = elim (List-cases s.queue) [
    | inl e ↦
        let same = some-injective s final (rw (e, search_from) at r) in
        (subst Inv same h, ap (λ s. s.queue) (sym same) ∙ e)
    | inr (c, rest, e) ↦ let r' : none ≡ some final = rw (e, search_from) at r in absurd cc
  ]
  search_from-Inv (suc rounds) s final h r = elim (List-cases s.queue) [
    | inl e ↦
        let same = some-injective s final (rw (e, search_from) at r) in
        (subst Inv same h, ap (λ s. s.queue) (sym same) ∙ e)
    | inr (c, rest, e) ↦
        search_from-Inv rounds (round s c rest) final (Inv-round s c rest e h)
          (rw (e, search_from) at r)
  ]

  -- With nothing waiting, what was met is closed under edges.
  complete :
      (s : Search)
      → Inv s
      → s.queue ≡ []
      → {x : String} → Reach m start x
      → member s.visited x ≡ true
  complete s h e here = h.source
  complete s h e (step {s = x} {t = y} r edge) = elim (h.closed x y (complete s h e r) edge) [
    | inl q ↦ absurd (let none_left : member s.queue x ≡ false = ap (λ q. member q x) e in cc)
    | inr met ↦ met
  ]

member-insert :
    (x : String) (xs : List String) (y : String)
    → member (insert_string x xs) y ≡ (x == y || member xs y)
unfolding insert_string
member-insert x [] y = ground arith
member-insert x (z ∷ xs) y = ground (arith, member-insert x xs y)

member-sort : (xs : List String) (y : String) → member (sort_strings xs) y ≡ member xs y
unfolding sort_strings
member-sort [] y = refl
member-sort (x ∷ xs) y =
    member-insert x (sort_strings xs) y ∙ ap (λ b. x == y || b) (member-sort xs y)

abbrev first : String → Search
first start = record { visited = start ∷ []; queue = start ∷ [] }

Inv-first : (m : StateMachine) (start : String) → Inv m start (first start)
Inv-first m start = record {
  source = ground (arith, eq_iff start start);
  sound = λ x v. subst (Reach m start) ((eq_iff start x).0 (ground (arith, v))) here;
  waiting = λ x q. q;
  closed = λ x y v edge. inl v;
}

unseen-le-length : (visited xs : List String) → unseen visited xs ≤ length xs
unseen-le-length visited [] = omega arith
unseen-le-length visited (x ∷ xs) = ground (arith, unseen-le-length visited xs)

first-work :
    (m : StateMachine) (start : String)
    → work (universe m start) (first start) ≤ length (universe m start)
first-work m start =
    ground (arith, eq_iff start start, unseen-le-length (start ∷ []) (all_destinations m.states))

-- Reachable always returns, and a state is in its result exactly when some walk along edges leads
-- to it from the start.
pub reachable_iff :
    (m : StateMachine) (start : String)
    → (states : List String) × (reachable m start ≡ some states)
      × ((x : String) → (member states x ≡ true) ↔ Reach m start x)
unfolding reachable
reachable_iff m start =
    let (final, ends) =
      search_from_ends m start (length (universe m start)) (first start) (first-work m start) in
    let (inv, empty) =
      search_from-Inv m start (length (universe m start)) (first start) final (Inv-first m start)
        ends in
    (
      sort_strings final.visited,
      rw (ends, reachable) refl,
      λ x. (
        λ h. inv.sound x (sym (member-sort final.visited x) ∙ h),
        λ r. member-sort final.visited x ∙ complete m start final inv empty r,
      ),
    )
