-- ===== src/Telemetry/Stream/Invariant.antt =====
-- What holds of the manager's streams between two calls of its methods.
use ufo_observation_command.Base.{
  ℕ, ◌+◌, ℤ, pos, int64, inc64, inc64-int64, ◌≤ℤ◌, ◌<ℤ◌, String, ◌≡◌, ◌≢◌, refl, sym, ap, subst,
  ◌∙◌, eq_iff, ◌⊎◌, inl, inr, Option, none, List, [], All, length, Dict, get, Distinct,
  Distinct-put, copy, copy-Distinct, All-put, All-get, length-put_new, string_key, int_key, Error,
  arith,
}
use ufo_observation_command.Telemetry.Types.{Scope, Segment, Stream, Record}
use ufo_observation_command.Telemetry.Stream.{
  Manager, new_manager, new_stream, clone_stream, clone_labels, with_segment, sealed, open_stream,
  append, finalize, signal_locked,
}
use ufo_observation_command.Telemetry.Stream.Cases.{
  write, open_stream-cases, append-cases, finalize-cases,
}

pub collecting-ne-sealed : ◌≢◌ {A = String} "collecting" "sealed"
collecting-ne-sealed = ground (arith, eq_iff "collecting" "sealed")

-- A segment that was accepted, under its index.
abbrev pub SegmentIsValid : ℤ → ℤ × Segment → Type 0
SegmentIsValid expected (index, s) =
    (pos 0 ≤ℤ index) × (index <ℤ expected) × (s.index ≡ index) × (s.digest ≢ "") × (s.payload ≢ [])

-- The version counts the writes: one, one for each segment, one for the seal.
abbrev pub StateIsValid : Stream → Type 0
StateIsValid s =
    ((s.state ≡ "collecting") × (s.version ≡ int64 (length s.segments + 1)))
    ⊎ ((s.state ≡ "sealed")
        × (s.version ≡ int64 (length s.segments + 2))
        × (pos (length s.segments) ≡ s.expected_segments))

pub record StreamIsValid (s : Stream) : Type 0 where
  pub expects : pos 0 <ℤ s.expected_segments
  pub distinct : Distinct s.segments
  pub labelled : Distinct s.labels
  pub segments : All (SegmentIsValid s.expected_segments) s.segments
  pub state : StateIsValid s

abbrev pub EntryIsValid : String × Stream → Type 0
EntryIsValid (key, s) = (s.key ≡ key) × StreamIsValid s

pub record ManagerIsValid (m : Manager) : Type 0 where
  pub distinct : Distinct m.streams
  pub streams : All EntryIsValid m.streams

pub new_manager-IsValid : ManagerIsValid new_manager
new_manager-IsValid = record { distinct = tt; streams = tt }

write-IsValid :
    (key : String) (s : Stream) (m : Manager)
    → s.key ≡ key
    → StreamIsValid s
    → ManagerIsValid m
    → ManagerIsValid (write key s m)
unfolding signal_locked
write-IsValid key s m e v h = record {
  distinct = Distinct-put m.streams key s h.distinct;
  streams = All-put EntryIsValid m.streams key s (e, v) h.streams;
}

new_stream-IsValid :
    (key : String) (scope : Scope) (expected : ℤ) (labels : Dict String String)
    → pos 0 <ℤ expected
    → StreamIsValid (clone_stream (new_stream key scope expected labels))
unfolding clone_stream clone_labels int64
new_stream-IsValid key scope expected labels h = record {
  expects = h;
  distinct = tt;
  labelled = copy-Distinct (copy labels);
  segments = tt;
  state = inl (refl, refl);
}

collecting-version :
    (s : Stream)
    → s.state ≡ "collecting"
    → StateIsValid s
    → s.version ≡ int64 (length s.segments + 1)
collecting-version s c (inl h) = h.1
collecting-version s c (inr h) = absurd (collecting-ne-sealed (sym c ∙ h.0))

with_segment-IsValid :
    (s : Stream) (g : Segment)
    → s.state ≡ "collecting"
    → SegmentIsValid s.expected_segments (g.index, g)
    → get s.segments g.index ≡ none
    → StreamIsValid s
    → StreamIsValid (with_segment s g)
with_segment-IsValid s g c v n h = record {
  expects = h.expects;
  distinct = Distinct-put s.segments g.index g h.distinct;
  labelled = h.labelled;
  segments = All-put (SegmentIsValid s.expected_segments) s.segments g.index g v h.segments;
  state = inl (
    c,
    ap inc64 (collecting-version s c h.state)
        ∙ inc64-int64 (length s.segments + 1)
        ∙ ap int64 (omega (arith, length-put_new s.segments g.index g n)),
  );
}

sealed-IsValid :
    (s : Stream)
    → s.state ≡ "collecting"
    → pos (length s.segments) ≡ s.expected_segments
    → StreamIsValid s
    → StreamIsValid (sealed s)
sealed-IsValid s c l h = record {
  expects = h.expects;
  distinct = h.distinct;
  labelled = h.labelled;
  segments = h.segments;
  state = inr (
    refl,
    ap inc64 (collecting-version s c h.state)
        ∙ inc64-int64 (length s.segments + 1)
        ∙ ap int64 (omega arith),
    l,
  );
}

pub open_stream-IsValid :
    (scope : Scope) (expected : ℤ) (labels : Dict String String) (m : Manager)
    → ManagerIsValid m
    → ManagerIsValid (open_stream scope expected labels m).1
unfolding clone_stream
open_stream-IsValid scope expected labels m h = elim (open_stream-cases scope expected labels m) [
  | inl e ↦ rw e h
  | inr (key, k, p, n, e) ↦
      subst (λ r. ManagerIsValid r.1) (sym e)
        (write-IsValid key _ m refl (new_stream-IsValid key scope expected labels p) h)
]

pub append-IsValid :
    (ctx_err : Option Error) (key : String) (index : ℤ) (digest : String) (payload : List ℕ)
    (m : Manager)
    → ManagerIsValid m
    → ManagerIsValid (append ctx_err key index digest payload m).1
append-IsValid ctx_err key index digest payload m h =
    elim (append-cases ctx_err key index digest payload m) [
      | inl e ↦ rw e h
      | inr (s, found, c, lo, hi, d, p, n, e) ↦
          let v : EntryIsValid (key, s) = All-get EntryIsValid m.streams key h.streams found in
          rw e (write-IsValid key _ m v.0 (with_segment-IsValid s _ c (lo, hi, refl, d, p) n v.1) h)
    ]

pub finalize-IsValid :
    (digest_hex : List ℕ → String) (ctx_err : Option Error) (key : String) (version : ℤ)
    (checksum : String) (audit : Option (Record → Option Error)) (now : ℤ) (m : Manager)
    → ManagerIsValid m
    → ManagerIsValid (finalize digest_hex ctx_err key version checksum audit now m).1
finalize-IsValid digest_hex ctx_err key version checksum audit now m h =
    elim (finalize-cases digest_hex ctx_err key version checksum audit now m) [
      | inl e ↦ rw e.1 h
      | inr (s, found, c, v, l, n, d, a, e) ↦
          let w : EntryIsValid (key, s) = All-get EntryIsValid m.streams key h.streams found in
          rw e (write-IsValid key _ m w.0 (sealed-IsValid s c l w.1) h)
    ]
