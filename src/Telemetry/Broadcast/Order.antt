-- ===== src/Telemetry/Broadcast/Order.antt =====
-- internal/telemetry/coordination.go, `Broadcaster`: what a subscriber gets, in which order.
use mathlib.Core.List.{append_assoc, append-nil}
use ufo_observation_command.Base.{
  ℕ, ltb, ◌==ℕ◌, false, Option, none, some, some-injective, List, [], ◌∷◌, ◌++◌, length, ◌≡◌, refl,
  sym, ap, subst, ◌∙◌, Bool-cases, Option-cases, inl, inr, arith, two64, ◌+◌, ◌<◌,
}
use ufo_observation_command.Telemetry.Broadcast.{
  Payload, Channel, Broadcaster, new_broadcaster, member, set_channel, Action, subscribe, cancel,
  receive, publish, send, hand_over, finish, pushed, taken, send_next, hand_next, next_waiting,
  finish_publish, receive_from, locked, step, run, is_order,
}
use ufo_observation_command.Telemetry.Broadcast.Invariant.{
  wanted, contents, owed, total, Pending, Inv, Kept, Kept-subscribe, Kept-cancel, Kept-cancelled,
  Kept-publish, Kept-delivered, ==ℕ-eq,
}

Kept-send :
    (s : Option (Payload × List ℕ)) (b b' : Broadcaster)
    → b.sending ≡ s
    → Inv b
    → send_next s b ≡ some b'
    → Kept send b b'
unfolding send_next
Kept-send none b b' e h r = absurd cc
Kept-send (some (event, [])) b b' e h r = absurd cc
Kept-send (some (event, i ∷ rest)) b b' e h r =
    elim (Bool-cases (ltb (length (b.channels i).waiting) (b.channels i).buffer)) [
      | inl t ↦ subst (Kept send b) (some-injective _ _ (rw (t, send_next) at r)) (
          Kept-delivered b h event i rest e (pushed event (b.channels i))
            (sym (append_assoc (b.channels i).received (b.channels i).waiting (event ∷ []))) send
            (λ id actions. refl) refl)
      | inr t ↦ let r' : none ≡ some b' = rw (t, send_next) at r in absurd cc
    ]

Kept-hand_over :
    (s : Option (Payload × List ℕ)) (waiting : List Payload) (b b' : Broadcaster)
    → b.sending ≡ s
    → next_waiting b s ≡ waiting
    → Inv b
    → hand_next s waiting b ≡ some b'
    → Kept hand_over b b'
unfolding hand_next
Kept-hand_over none w b b' e q h r = absurd cc
Kept-hand_over (some (event, [])) w b b' e q h r = absurd cc
Kept-hand_over (some (event, i ∷ rest)) (x ∷ w) b b' e q h r = absurd cc
Kept-hand_over (some (event, i ∷ rest)) [] b b' e q h r =
    subst (Kept hand_over b) (some-injective _ _ r) (
      Kept-delivered b h event i rest e (taken event (b.channels i)) (simp (q, append-nil))
        hand_over (λ id actions. refl) refl)

Kept-finish :
    (s : Option (Payload × List ℕ)) (b b' : Broadcaster)
    → b.sending ≡ s
    → Inv b
    → finish_publish s b ≡ some b'
    → Kept finish b b'
unfolding finish_publish
Kept-finish none b b' e h r = absurd cc
Kept-finish (some (event, i ∷ rest)) b b' e h r = absurd cc
Kept-finish (some (event, [])) b b' e h r = subst (Kept finish b) (some-injective _ _ r) record {
  few = omega arith;
  inv = record { fresh = h.fresh; below = h.below; once = h.once; opened = h.opened; pending = tt };
  live = λ id rest. rw (e, owed) refl;
}

Kept-receive :
    (i : ℕ) (waiting : List Payload) (b b' : Broadcaster)
    → (b.channels i).waiting ≡ waiting
    → Inv b
    → receive_from i waiting b ≡ some b'
    → Kept (receive i) b b'
unfolding receive_from
Kept-receive i [] b b' q h r = absurd cc
Kept-receive i (event ∷ waiting) b b' q h r =
    subst (Kept (receive i) b) (some-injective _ _ r) record {
      few = omega arith;
      inv = record {
        fresh = λ j le. same_contents j ∙ h.fresh j le;
        below = h.below;
        once = h.once;
        opened = λ j m. ground (arith, h.opened j, h.opened i, m);
        pending = h.pending;
      };
      live = λ id rest.
          ap (λ x. x ++ owed b.sending id ++ wanted id b.next (member b.subscribers id) rest)
            (sym (same_contents id));
    }
  where
    channel : Channel
    channel = record (b.channels i) {
      waiting = waiting;
      received = (b.channels i).received ++ (event ∷ []);
    }

    same_contents :
        (j : ℕ) → contents (set_channel b.channels i channel j) ≡ contents (b.channels j)
    same_contents j = elim (Bool-cases (i ==ℕ j)) [
      | inl e ↦
          rw (set_channel, e)
            (append_assoc (b.channels i).received (event ∷ []) waiting
              ∙ ap (λ w. (b.channels i).received ++ w) (sym q)
              ∙ ap (λ k. contents (b.channels k)) (==ℕ-eq i j e))
      | inr e ↦ rw (set_channel, e) refl
    ]

-- Who gets the mutex finds it free.
locked-some :
    {A : Type 0} (s : Option (Payload × List ℕ)) (x y : A)
    → locked s x ≡ some y
    → (s ≡ none) × (x ≡ y)
locked-some none x y h = (refl, some-injective x y h)
locked-some (some p) x y h = absurd cc

Kept-step :
    (a : Action) (b b' : Broadcaster)
    → Inv b
    → b.next + 1 < two64
    → step a b ≡ some b'
    → Kept a b b'
unfolding step
Kept-step (subscribe buffer) b b' h small r =
    let (free, same) = locked-some b.sending _ _ r in
    subst (Kept (subscribe buffer) b) same (Kept-subscribe buffer b h free small)
Kept-step (cancel i) b b' h small r = elim (Bool-cases (member b.subscribers i)) [
  | inl t ↦
      let (free, same) = locked-some b.sending _ _ (rw (t, step) at r) in
      subst (Kept (cancel i) b) same (Kept-cancel i b h free)
  | inr t ↦
      subst (Kept (cancel i) b) (some-injective _ _ (rw (t, step) at r)) (Kept-cancelled i b h t)
]
Kept-step (receive i) b b' h small r = Kept-receive i (b.channels i).waiting b b' refl h r
Kept-step (publish event order) b b' h small r = elim (Bool-cases (is_order order b.subscribers)) [
  | inl t ↦
      let (free, same) = locked-some b.sending _ _ (rw (t, step) at r) in
      subst (Kept (publish event order) b) same (Kept-publish event order b h free t)
  | inr t ↦ let r' : none ≡ some b' = rw (t, step) at r in absurd cc
]
Kept-step send b b' h small r = Kept-send b.sending b b' refl h r
Kept-step hand_over b b' h small r =
    Kept-hand_over b.sending (next_waiting b b.sending) b b' refl refl h r
Kept-step finish b b' h small r = Kept-finish b.sending b b' refl h r

run-total :
    (actions : List Action) (b b' : Broadcaster)
    → Inv b
    → b.next + length actions < two64
    → run actions b ≡ some b'
    → Inv b'
      × ((id : ℕ) → total b id ++ wanted id b.next (member b.subscribers id) actions ≡ total b' id)
unfolding run
run-total [] b b' h small r =
    let same = some-injective b b' r in
    (subst Inv same h, λ id. append-nil (total b id) ∙ ap (λ b. total b id) same)
run-total (a ∷ actions) b b' h small r = elim (Option-cases (step a b)) [
  | inl e ↦ let r' : none ≡ some b' = rw (e, run) at r in absurd cc
  | inr (c, e) ↦
      let kept = Kept-step a b c h (omega (arith, small)) e in
      let (inv, more) =
        run-total actions c b' kept.inv (omega (arith, small, kept.few)) (rw (e, run) at r) in
      (inv, λ id. kept.live id actions ∙ more id)
]

Inv-new : Inv new_broadcaster
Inv-new = record {
  fresh = λ i le. refl;
  below = λ i m. absurd (ground arith);
  once = tt;
  opened = λ i m. absurd (ground arith);
  pending = tt;
}

next-open :
    (b : Broadcaster) (event : Payload) (i : ℕ) (rest : List ℕ)
    → Inv b
    → b.sending ≡ some (event, i ∷ rest)
    → (b.channels i).closed ≡ false
next-open b event i rest h busy =
    let (once, among) = subst (λ s. Pending s b.subscribers) busy h.pending in
    h.opened i (among i (ground arith))

-- After any sequence of fewer than 2^64 actions that can go on, with any calls inside others and every
-- Publish in any order of the subscribers: what a subscriber has
-- received, what waits in its channel and what a running Publish still owes to it are together the
-- events that were published between its Subscribe and its cancellation, in their order; and a
-- Publish never comes to a channel that is closed.
pub subscriber_order :
    (actions : List Action) (b : Broadcaster)
    → length actions < two64
    → run actions new_broadcaster ≡ some b
    → ((id : ℕ) → contents (b.channels id) ++ owed b.sending id ≡ wanted id 0 false actions)
      × ((event : Payload) (i : ℕ) (rest : List ℕ)
          → b.sending ≡ some (event, i ∷ rest)
          → (b.channels i).closed ≡ false)
subscriber_order actions b small r =
    let (inv, all) = run-total actions new_broadcaster b Inv-new (omega (arith, small)) r in
    (λ id. sym (all id), λ event i rest busy. next-open b event i rest inv busy)
