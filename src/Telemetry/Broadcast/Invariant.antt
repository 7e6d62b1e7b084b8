-- ===== src/Telemetry/Broadcast/Invariant.antt =====
-- internal/telemetry/coordination.go, `Broadcaster`: what each action keeps of the invariant and of the
-- events that a subscriber gets.
use mathlib.Core.List.{append_assoc, append-nil}
use ufo_observation_command.Base.{
  ℕ, ◌+◌, ◌≤◌, ◌<◌, ◌==ℕ◌, Bool, true, false, not, ◌||◌, ◌&&◌, Option, none, some, List, [], ◌∷◌,
  ◌++◌, keep, ◌≡◌, refl, sym, ap, subst, ◌∙◌, if◌then◌else◌, Bool-cases, inl, inr, arith, two64,
}
use ufo_observation_command.Telemetry.Broadcast.{
  Payload, Channel, Broadcaster, member, remove, set_channel, Action, subscribe, cancel, receive,
  publish, send, hand_over, finish, subscribe_with, subscribe_before, cancel_once, no_repeat,
  all_in, is_order,
}

-- The events that are published between the call of Subscribe that gives an identifier and the first
-- run of its cancellation, `next` being the identifier of the next subscription.
abbrev pub wanted : ℕ → ℕ → Bool → List Action → List Payload
wanted id next live [] = []
wanted id next live (subscribe buffer ∷ actions) =
    wanted id (next + 1) (next ==ℕ id || live) actions
wanted id next live (cancel i ∷ actions) = wanted id next (not (i ==ℕ id) && live) actions
wanted id next live (publish event order ∷ actions) =
    (if live then event ∷ [] else []) ++ wanted id next live actions
wanted id next live (receive i ∷ actions) = wanted id next live actions
wanted id next live (send ∷ actions) = wanted id next live actions
wanted id next live (hand_over ∷ actions) = wanted id next live actions
wanted id next live (finish ∷ actions) = wanted id next live actions

-- What was received from a channel and what waits in it.
abbrev pub contents : Channel → List Payload
contents channel = channel.received ++ channel.waiting

-- The event that a Publish has still to send to a subscriber.
abbrev pub owed : Option (Payload × List ℕ) → ℕ → List Payload
owed none id = []
owed (some (event, rest)) id = if member rest id then event ∷ [] else []

abbrev pub total : Broadcaster → ℕ → List Payload
total b id = contents (b.channels id) ++ owed b.sending id

abbrev pub NoRepeat : List ℕ → Type 0
NoRepeat [] = Unit
NoRepeat (x ∷ xs) = (member xs x ≡ false) × NoRepeat xs

abbrev pub Pending : Option (Payload × List ℕ) → List ℕ → Type 0
Pending none subscribers = Unit
Pending (some (event, rest)) subscribers =
    NoRepeat rest × ((i : ℕ) → member rest i ≡ true → member subscribers i ≡ true)

pub record Inv (b : Broadcaster) : Type 0 where
  pub fresh : (i : ℕ) → b.next ≤ i → contents (b.channels i) ≡ []
  pub below : (i : ℕ) → member b.subscribers i ≡ true → i < b.next
  pub once : NoRepeat b.subscribers
  pub opened : (i : ℕ) → member b.subscribers i ≡ true → (b.channels i).closed ≡ false
  pub pending : Pending b.sending b.subscribers

member-remove :
    (ids : List ℕ) (id i : ℕ) → member (remove ids id) i ≡ (not (id ==ℕ i) && member ids i)
member-remove [] id i = ground arith
member-remove (x ∷ ids) id i = ground (arith, member-remove ids id i)

NoRepeat-remove : (ids : List ℕ) (id : ℕ) → NoRepeat ids → NoRepeat (remove ids id)
NoRepeat-remove [] id h = tt
NoRepeat-remove (x ∷ ids) id h = elim (Bool-cases (x ==ℕ id)) [
  | inl e ↦ rw (e, keep) (NoRepeat-remove ids id h.1)
  | inr e ↦ rw (e, keep) (ground (arith, member-remove ids id x, h.0), NoRepeat-remove ids id h.1)
]

-- A step, its effect on what a subscriber gets, and the invariant.
pub record Kept (a : Action) (b b' : Broadcaster) : Type 0 where
  pub inv : Inv b'
  pub few : b'.next ≤ b.next + 1
  pub live :
      (id : ℕ) (rest : List Action)
      → total b id ++ wanted id b.next (member b.subscribers id) (a ∷ rest)
        ≡ total b' id ++ wanted id b'.next (member b'.subscribers id) rest

Kept-subscribe_before :
    (buffer : ℕ) (b : Broadcaster)
    → Inv b
    → b.sending ≡ none
    → Kept (subscribe buffer) b (subscribe_before (b.next + 1) buffer b)
Kept-subscribe_before buffer b h free = record {
  few = omega arith;
  inv = record {
    fresh = λ i le. ground (arith, h.fresh i);
    below = λ i m. ground (arith, h.below i, m);
    once = (
      elim (Bool-cases (member b.subscribers b.next)) [
        | inl t ↦ absurd (omega (arith, h.below b.next t))
        | inr t ↦ t
      ],
      h.once,
    );
    opened = λ i m. ground (arith, h.opened i, m);
    pending = rw (free, Pending) tt;
  };
  live = λ id rest.
      ap (λ x. x ++ wanted id (b.next + 1) (b.next ==ℕ id || member b.subscribers id) rest)
        (elim (Bool-cases (b.next ==ℕ id)) [
          | inl e ↦
              rw (free, set_channel, e)
                (append-nil (contents (b.channels id)) ∙ h.fresh id (ground (arith, e)))
          | inr e ↦ rw (free, set_channel, e) refl
        ]);
}

pub Kept-subscribe :
    (buffer : ℕ) (b : Broadcaster)
    → Inv b
    → b.sending ≡ none
    → b.next + 1 < two64
    → Kept (subscribe buffer) b (subscribe_with buffer b)
unfolding subscribe_with
Kept-subscribe buffer b h free small =
    subst (λ next. Kept (subscribe buffer) b (subscribe_before next buffer b))
      (omega (arith, small)) (Kept-subscribe_before buffer b h free)

pub ==ℕ-eq : (i j : ℕ) → (i ==ℕ j) ≡ true → i ≡ j
==ℕ-eq i j e = ground arith

closing-contents :
    (b : Broadcaster) (i id : ℕ)
    → contents (b.channels id)
      ≡ contents (set_channel b.channels i (record (b.channels i) { closed = true }) id)
closing-contents b i id = elim (Bool-cases (i ==ℕ id)) [
  | inl e ↦ rw (set_channel, e) (ap (λ j. contents (b.channels j)) (sym (==ℕ-eq i id e)))
  | inr e ↦ rw (set_channel, e) refl
]

pub Kept-cancel :
    (i : ℕ) (b : Broadcaster) → Inv b → b.sending ≡ none → Kept (cancel i) b (cancel_once i b)
unfolding cancel_once
Kept-cancel i b h free = record {
  few = omega arith;
  inv = record {
    fresh = λ j le. ground (arith, h.fresh j, h.fresh i);
    below = λ j m. ground (arith, h.below j, m, member-remove b.subscribers i j);
    once = NoRepeat-remove b.subscribers i h.once;
    opened = λ j m. ground (arith, h.opened j, m, member-remove b.subscribers i j);
    pending = rw (free, Pending) tt;
  };
  live = λ id rest. rw (member-remove b.subscribers i id) (
      ap
        (λ x.
          x
          ++ owed b.sending id
          ++ wanted id b.next (not (i ==ℕ id) && member b.subscribers id) rest)
        (closing-contents b i id));
}

-- A cancellation that was run before does nothing.
pub Kept-cancelled :
    (i : ℕ) (b : Broadcaster) → Inv b → member b.subscribers i ≡ false → Kept (cancel i) b b
Kept-cancelled i b h gone = record {
  few = omega arith;
  inv = h;
  live = λ id rest.
      ap (λ live. total b id ++ wanted id b.next live rest)
        (elim (Bool-cases (i ==ℕ id)) [
          | inl e ↦
              let out : member b.subscribers id ≡ false =
                subst (λ j. member b.subscribers j ≡ false) (==ℕ-eq i id e) gone in
              rw (e, out) refl
          | inr e ↦ rw e refl
        ]);
}

no_repeat-NoRepeat : (xs : List ℕ) → no_repeat xs ≡ true → NoRepeat xs
no_repeat-NoRepeat [] h = tt
no_repeat-NoRepeat (x ∷ xs) h = (ground (arith, h), no_repeat-NoRepeat xs (ground (arith, h)))

all_in-member :
    (xs ys : List ℕ) (i : ℕ) → all_in xs ys ≡ true → member xs i ≡ true → member ys i ≡ true
all_in-member [] ys i h m = absurd (ground arith)
all_in-member (x ∷ xs) ys i h m = elim (Bool-cases (x ==ℕ i)) [
  | inl e ↦ subst (λ j. member ys j ≡ true) (==ℕ-eq x i e) (ground (arith, h))
  | inr e ↦ all_in-member xs ys i (ground (arith, h)) (ground (arith, m, e))
]

pub Kept-publish :
    (event : Payload) (order : List ℕ) (b : Broadcaster)
    → Inv b
    → b.sending ≡ none
    → is_order order b.subscribers ≡ true
    → Kept (publish event order) b (record b { sending = some (event, order) })
Kept-publish event order b h free ordered = record {
  few = omega arith;
  inv = record {
    fresh = h.fresh;
    below = h.below;
    once = h.once;
    opened = h.opened;
    pending = (once, λ i m. sym (same i) ∙ m);
  };
  live = λ id rest. rw (free, owed, same id) (simp (append-nil, append_assoc));
}
  where
    once : NoRepeat order
    once = no_repeat-NoRepeat order (ground (arith, ordered))

    same : (i : ℕ) → member order i ≡ member b.subscribers i
    same i = ground (
      arith,
      all_in-member order b.subscribers i (ground (arith, ordered)),
      all_in-member b.subscribers order i (ground (arith, ordered)),
    )

-- A send puts the event that was owed into the channel that is next in line.
module _ (b : Broadcaster) (h : Inv b) (event : Payload) (i : ℕ) (rest : List ℕ)
    (busy : b.sending ≡ some (event, i ∷ rest)) (channel : Channel)
    (gets : contents channel ≡ contents (b.channels i) ++ (event ∷ [])) where
  abbrev pub delivered : Broadcaster
  delivered = record b { channels = set_channel b.channels i channel; sending = some (event, rest) }

  Pending-now : Pending (some (event, i ∷ rest)) b.subscribers
  Pending-now = subst (λ s. Pending s b.subscribers) busy h.pending

  total-delivered : (id : ℕ) → total delivered id ≡ total b id
  total-delivered id = elim (Bool-cases (i ==ℕ id)) [
    | inl e ↦
        let same = ==ℕ-eq i id e in
        let last : member rest id ≡ false =
          subst (λ j. member rest j ≡ false) same Pending-now.0.0 in
        rw (busy, set_channel, e, last)
          (append-nil (contents channel)
            ∙ gets
            ∙ ap (λ j. contents (b.channels j) ++ (event ∷ [])) same)
    | inr e ↦ rw (busy, set_channel, e) refl
  ]

  Inv-delivered : channel.closed ≡ (b.channels i).closed → Inv delivered
  Inv-delivered same = record {
    fresh = λ j le.
        let below = h.below i (Pending-now.1 i (ground arith)) in ground (arith, h.fresh j, below);
    below = h.below;
    once = h.once;
    opened = λ j m. ground (arith, h.opened j, h.opened i, m, same);
    pending = (Pending-now.0.1, λ j m. Pending-now.1 j (ground (arith, m)));
  }

  pub Kept-delivered :
      (a : Action)
      → ((id : ℕ) (actions : List Action)
          → wanted id b.next (member b.subscribers id) (a ∷ actions)
            ≡ wanted id b.next (member b.subscribers id) actions)
      → channel.closed ≡ (b.channels i).closed
      → Kept a b delivered
  Kept-delivered a silent same = record {
    few = omega arith;
    inv = Inv-delivered same;
    live = λ id actions.
        ap (λ x. total b id ++ x) (silent id actions)
        ∙ ap (λ x. x ++ wanted id b.next (member b.subscribers id) actions)
            (sym (total-delivered id));
  }
