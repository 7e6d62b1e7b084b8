-- ===== src/Telemetry/Stream/History.antt =====
-- Sequences of calls of the manager's methods: what every history keeps.
use ufo_observation_command.Base.{
  ℕ, ◌<◌, ℤ, String, ◌==◌, eq_iff, ◌≡◌, refl, sym, ap, subst₂, ◌∙◌, ◌⊎◌, inl, inr, Bool, true,
  Option, none, some, List, [], ◌∷◌, Dict, get, put, get-put_self, get-put_ne, string_key, int_key,
  Error, succeeded, not, Bool-cases, arith,
}
use ufo_observation_command.Telemetry.Types.{Scope, Segment, Stream, Record}
use ufo_observation_command.Telemetry.Stream.{
  Manager, with_segment, sealed, open_stream, append, finalize, signal_locked,
}
use ufo_observation_command.Telemetry.Stream.Cases.{
  write, open_stream-cases, append-cases, finalize-cases,
}
use ufo_observation_command.Telemetry.Stream.Invariant.{
  ManagerIsValid, open_stream-IsValid, append-IsValid, finalize-IsValid, collecting-ne-sealed,
}

pub data Call : Type 0 where
  opens : Scope → ℤ → Dict String String → Call
  appends : Option Error → String → ℤ → String → List ℕ → Call
  finalizes : Option Error → String → ℤ → String → Option (Record → Option Error) → ℤ → Call

-- What later calls keep of a stream.
pub record Extends (s t : Stream) : Type 0 where
  pub same_key : t.key ≡ s.key
  pub same_scope : t.scope ≡ s.scope
  pub same_count : t.expected_segments ≡ s.expected_segments
  pub same_labels : t.labels ≡ s.labels
  pub keeps : (i : ℤ) (g : Segment) → get s.segments i ≡ some g → get t.segments i ≡ some g
  pub frozen : s.state ≡ "sealed" → t ≡ s

Extends-refl : (s : Stream) → Extends s s
Extends-refl s = record {
  same_key = refl;
  same_scope = refl;
  same_count = refl;
  same_labels = refl;
  keeps = λ i g e. e;
  frozen = λ e. refl;
}

Extends-trans : {s t u : Stream} → Extends s t → Extends t u → Extends s u
Extends-trans {s} {t} {u} x y = record {
  same_key = y.same_key ∙ x.same_key;
  same_scope = y.same_scope ∙ x.same_scope;
  same_count = y.same_count ∙ x.same_count;
  same_labels = y.same_labels ∙ x.same_labels;
  keeps = λ i g e. y.keeps i g (x.keeps i g e);
  frozen = λ e. y.frozen (ap (λ r. r.state) (x.frozen e) ∙ e) ∙ x.frozen e;
}

Extends-sealed : (s : Stream) → s.state ≡ "collecting" → Extends s (sealed s)
Extends-sealed s c = record {
  same_key = refl;
  same_scope = refl;
  same_count = refl;
  same_labels = refl;
  keeps = λ i g e. e;
  frozen = λ e. absurd (collecting-ne-sealed (sym c ∙ e));
}

Extends-with_segment :
    (s : Stream) (g : Segment)
    → s.state ≡ "collecting"
    → get s.segments g.index ≡ none
    → Extends s (with_segment s g)
Extends-with_segment s g c n = record {
  same_key = refl;
  same_scope = refl;
  same_count = refl;
  same_labels = refl;
  keeps = λ i h e. get-put_ne s.segments g.index g i (λ p. cc (ap (get s.segments) p, n, e)) ∙ e;
  frozen = λ e. absurd (collecting-ne-sealed (sym c ∙ e));
}

module _ (digest_hex : List ℕ → String) where
  unfoldable pub step : Manager → Call → Manager
  step m (opens scope expected labels) = (open_stream scope expected labels m).1
  step m (appends ctx_err key index digest payload) = (append ctx_err key index digest payload m).1
  step m (finalizes ctx_err key version checksum audit now) =
      (finalize digest_hex ctx_err key version checksum audit now m).1

  -- Whether a call returns an error.
  unfoldable pub fails : Manager → Call → Bool
  fails m (opens scope expected labels) = not (succeeded (open_stream scope expected labels m).0)
  fails m (appends ctx_err key index digest payload) =
      not (succeeded (append ctx_err key index digest payload m).0)
  fails m (finalizes ctx_err key version checksum audit now) =
      not (succeeded (finalize digest_hex ctx_err key version checksum audit now m).0)

  unfoldable pub run : Manager → List Call → Manager
  unfolding step
  run m [] = m
  run m (c ∷ cs) = run (step m c) cs

  -- A call that returns an error leaves the manager as it was.
  pub error_unchanged : (m : Manager) (c : Call) → fails m c ≡ true → step m c ≡ m
  unfolding fails step
  error_unchanged m (opens scope expected labels) h =
      elim (open_stream-cases scope expected labels m) [
        | inl s ↦ s
        | inr (key, k, p, n, r) ↦ cc (ap (λ x. not (succeeded x.0)) r, h)
      ]
  error_unchanged m (appends ctx_err key index digest payload) h =
      elim (append-cases ctx_err key index digest payload m) [
        | inl s ↦ s
        | inr (s, f, c, lo, hi, d, p, n, r) ↦ cc (ap (λ x. not (succeeded x.0)) r, h)
      ]
  error_unchanged m (finalizes ctx_err key version checksum audit now) h =
      elim (finalize-cases digest_hex ctx_err key version checksum audit now m) [
        | inl s ↦ s.1
        | inr (s, f, c, v, l, n, d, a, r) ↦ cc (ap (λ x. not (succeeded x.0)) r, h)
      ]

  step-IsValid : (m : Manager) (c : Call) → ManagerIsValid m → ManagerIsValid (step m c)
  unfolding step
  step-IsValid m (opens scope expected labels) h = open_stream-IsValid scope expected labels m h
  step-IsValid m (appends ctx_err key index digest payload) h =
      append-IsValid ctx_err key index digest payload m h
  step-IsValid m (finalizes ctx_err key version checksum audit now) h =
      finalize-IsValid digest_hex ctx_err key version checksum audit now m h

  -- The invariant holds after any calls, from a manager where it holds.
  pub run-IsValid : (m : Manager) (cs : List Call) → ManagerIsValid m → ManagerIsValid (run m cs)
  unfolding run
  run-IsValid m [] h = h
  run-IsValid m (c ∷ cs) h = run-IsValid (step m c) cs (step-IsValid m c h)

  -- A call writes nothing, a new stream, or a stream that still collects.
  abbrev Writes : Manager → Manager → Type 0
  Writes m m' =
      (m' ≡ m)
      ⊎ ((key : String) × (t : Stream) × (m' ≡ write key t m)
          × ((get m.streams key ≡ none)
              ⊎ ((s : Stream) × (get m.streams key ≡ some s)
                  × (s.state ≡ "collecting")
                  × ((t ≡ sealed s)
                      ⊎ ((g : Segment) × (get s.segments g.index ≡ none)
                          × (t ≡ with_segment s g))))))

  step-Writes : (m : Manager) (c : Call) → Writes m (step m c)
  unfolding step
  step-Writes m (opens scope expected labels) = elim (open_stream-cases scope expected labels m) [
    | inl e ↦ inl e
    | inr (key, k, p, n, e) ↦ inr (key, _, ap (λ r. r.1) e, inl n)
  ]
  step-Writes m (appends ctx_err key index digest payload) =
      elim (append-cases ctx_err key index digest payload m) [
        | inl e ↦ inl e
        | inr (s, found, c, lo, hi, d, p, n, e) ↦ inr (
          key,
          _,
          ap (λ r. r.1) e,
          inr (
            s,
            found,
            c,
            inr (record { index = index; digest = digest; payload = payload }, n, refl),
          ),
        )
      ]
  step-Writes m (finalizes ctx_err key version checksum audit now) =
      elim (finalize-cases digest_hex ctx_err key version checksum audit now m) [
        | inl e ↦ inl e.1
        | inr (s, found, c, v, l, n, d, a, e) ↦
            inr (key, _, ap (λ r. r.1) e, inr (s, found, c, inl refl))
      ]

  -- A call that changes the manager closes a channel.
  step-changed : (m : Manager) (c : Call) → (step m c ≡ m) ⊎ (m.changed < (step m c).changed)
  unfolding signal_locked
  step-changed m c = elim (step-Writes m c) [
    | inl e ↦ inl e
    | inr (k, t, e, why) ↦ inr (let p = ap (λ n. n.changed) e in omega (arith, p))
  ]

  pub run-changed :
      (m : Manager) (cs : List Call) → (run m cs ≡ m) ⊎ (m.changed < (run m cs).changed)
  unfolding run
  run-changed m [] = inl refl
  run-changed m (c ∷ cs) = elim (step-changed m c) [
    | inl e ↦ elim (run-changed (step m c) cs) [
      | inl f ↦ inl (f ∙ e)
      | inr g ↦ inr (let p = ap (λ n. n.changed) e in omega (arith, p, g))
    ]
    | inr l ↦ elim (run-changed (step m c) cs) [
      | inl f ↦ inr (let p = ap (λ n. n.changed) f in omega (arith, p, l))
      | inr g ↦ inr (omega (arith, l, g))
    ]
  ]

  abbrev pub Later : Manager → String → Stream → Type 0
  Later m key s = (t : Stream) × (get m.streams key ≡ some t) × Extends s t

  step-Extends :
      (m : Manager) (c : Call) (key : String) (s : Stream)
      → get m.streams key ≡ some s
      → Later (step m c) key s
  unfolding signal_locked
  step-Extends m c key s found = elim (step-Writes m c) [
    | inl e ↦ (s, ap (λ n. get n.streams key) e ∙ found, Extends-refl s)
    | inr (k, t, e, why) ↦ elim (Bool-cases (k == key)) [
      | inr d ↦ (
        s,
        ap (λ n. get n.streams key) e
            ∙ get-put_ne m.streams k t key (ground (arith, eq_iff k key))
            ∙ found,
        Extends-refl s,
      )
      | inl d ↦ (
        t,
        ap (λ n. get n.streams key) e
            ∙ ap (λ j. get (put m.streams j t) key) ((eq_iff k key).0 d)
            ∙ get-put_self m.streams key t,
        written k t ((eq_iff k key).0 d) why,
      )
    ]
  ]
    where
      written :
          (k : String) (t : Stream)
          → k ≡ key
          → (get m.streams k ≡ none)
            ⊎ ((r : Stream) × (get m.streams k ≡ some r)
                × (r.state ≡ "collecting")
                × ((t ≡ sealed r)
                    ⊎ ((g : Segment) × (get r.segments g.index ≡ none) × (t ≡ with_segment r g))))
          → Extends s t
      written k t p (inl n) = cc (ap (get m.streams) p)
      written k t p (inr (r, f, c, inl e)) =
          let q : r ≡ s = cc (ap (get m.streams) p) in subst₂ Extends q (sym e) (Extends-sealed r c)
      written k t p (inr (r, f, c, inr (g, n, e))) =
          let q : r ≡ s = cc (ap (get m.streams) p) in
          subst₂ Extends q (sym e) (Extends-with_segment r g c n)

  -- Whatever is called later, a stream stays, with all its segments, and for good once it is sealed.
  pub run-Extends :
      (m : Manager) (cs : List Call) (key : String) (s : Stream)
      → get m.streams key ≡ some s
      → Later (run m cs) key s
  unfolding run
  run-Extends m [] key s found = (s, found, Extends-refl s)
  run-Extends m (c ∷ cs) key s found =
      let (t, f, x) = step-Extends m c key s found in
      let (u, g, y) = run-Extends (step m c) cs key t f in (u, g, Extends-trans x y)

  -- A sealed stream is what every later lookup finds, whatever is called in between.
  pub sealed_forever :
      (m : Manager) (cs : List Call) (key : String) (s : Stream)
      → get m.streams key ≡ some s
      → s.state ≡ "sealed"
      → get (run m cs).streams key ≡ some s
  sealed_forever m cs key s found e =
      let (t, f, x) = run-Extends m cs key s found in f ∙ ap some (x.frozen e)
