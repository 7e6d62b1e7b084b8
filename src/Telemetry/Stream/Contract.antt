-- ===== src/Telemetry/Stream/Contract.antt =====
-- The contract of `Append` and `Finalize` towards their callers.
use ufo_observation_command.Base.{
  ℕ, ℤ, pos, String, ◌==◌, eq_iff, ◌≡◌, ◌≢◌, refl, sym, ap, ◌∙◌, inl, inr, Bool, false, Option,
  none, some, List, [], length, get, get-put_self, string_key, int_key, Error, ok, err, Bool-cases,
  Option-cases, true, succeeded, subst, eq_refl, ==ℤ_iff, if◌then◌else◌, arith, All-get,
}
use ufo_observation_command.Telemetry.Types.{Segment, Stream, Record, conflict_error}
use ufo_observation_command.Telemetry.Stream.{
  Manager, bad_segment, with_segment, sealed, append, finalize, concat_payloads, record_of, audited,
  assemble,
}
use ufo_observation_command.Telemetry.Stream.Cases.{write, finalize-cases}
use ufo_observation_command.Telemetry.Stream.Invariant.{
  ManagerIsValid, EntryIsValid, SegmentIsValid, append-IsValid,
}
use ufo_observation_command.Telemetry.Stream.Assembly.{indices, assemble_complete}

-- A call of `Append` that succeeded: the stream now holds a segment with this digest there.
abbrev pub Holds : String → ℤ → String → Manager → Type 0
Holds key index digest m =
    (s : Stream) × (g : Segment) × (get m.streams key ≡ some s)
    × (s.state ≡ "collecting")
    × (get s.segments index ≡ some g)
    × (g.digest ≡ digest)

append-Holds :
    (ctx_err : Option Error) (key : String) (index : ℤ) (digest : String) (payload : List ℕ)
    (m : Manager) {b : Bool}
    → (append ctx_err key index digest payload m).0 ≡ ok b
    → Holds key index digest (append ctx_err key index digest payload m).1
unfolding append
append-Holds (some e) key index digest payload m h = cc
append-Holds none key index digest payload m {b} h = elim (Option-cases (get m.streams key)) [
  | inl p ↦ absurd (ground arith)
  | inr (stream, p) ↦ elim (Bool-cases (stream.state == "collecting")) [
    | inr c ↦ absurd (ground arith)
    | inl c ↦ elim (Bool-cases (bad_segment stream index digest payload)) [
      | inl t ↦ absurd (ground arith)
      | inr f ↦ elim (Option-cases (get stream.segments index)) [
        | inl q ↦ (
          with_segment stream (record { index = index; digest = digest; payload = payload }),
          record { index = index; digest = digest; payload = payload },
          ground (
            arith,
            get-put_self m.streams key (
                with_segment stream (record { index = index; digest = digest; payload = payload })),
          ),
          (eq_iff _ _).0 c,
          get-put_self stream.segments index
              (record { index = index; digest = digest; payload = payload }),
          refl,
        )
        | inr (prior, q) ↦ (
          stream,
          prior,
          ground arith,
          (eq_iff _ _).0 c,
          q,
          ground (arith, eq_iff prior.digest digest),
        )
      ]
    ]
  ]
]

append-held :
    (key : String) (index : ℤ) (digest digest' : String) (payload : List ℕ) (m : Manager)
    → ManagerIsValid m
    → Holds key index digest m
    → digest' ≢ ""
    → payload ≢ []
    → append none key index digest' payload m ≡ (
      (if digest == digest'
          then ok false
          else err (conflict_error "segment index has different content: %w")),
      m,
    )
unfolding append
append-held key index digest digest' payload m v (s, g, f, c, q, d) n p =
    let w : EntryIsValid (key, s) = All-get EntryIsValid m.streams key v.streams f in
    let r : SegmentIsValid s.expected_segments (index, g) =
      All-get (SegmentIsValid s.expected_segments) s.segments index w.1.segments q in
    ground (arith, eq_iff s.state "collecting", eq_iff digest' "", r.0, r.1)

-- After a successful `Append`, an `Append` at the same index changes nothing: it returns false where
-- the digest is the same, and a conflict where it differs.
pub append_again :
    (ctx_err : Option Error) (key : String) (index : ℤ) (digest digest' : String)
    (payload payload' : List ℕ) (m : Manager) {b : Bool}
    → ManagerIsValid m
    → (append ctx_err key index digest payload m).0 ≡ ok b
    → digest' ≢ ""
    → payload' ≢ []
    → let m' = (append ctx_err key index digest payload m).1 in
      append none key index digest' payload' m' ≡ (
        (if digest == digest'
            then ok false
            else err (conflict_error "segment index has different content: %w")),
        m',
      )
append_again ctx_err key index digest digest' payload payload' m v h n p =
    append-held key index digest digest' payload' _
      (append-IsValid ctx_err key index digest payload m v)
      (append-Holds ctx_err key index digest payload m h) n p

-- A successful `Finalize` found the stream complete, at the expected version, with the checksum of
-- its content; the content is the payloads in the order of the indices, and only the seal is new.
pub finalize-sealed :
    (digest_hex : List ℕ → String) (ctx_err : Option Error) (key : String) (version : ℤ)
    (checksum : String) (audit : Option (Record → Option Error)) (now : ℤ) (m : Manager)
    {r : Record}
    → ManagerIsValid m
    → (finalize digest_hex ctx_err key version checksum audit now m).0 ≡ ok r
    → (s : Stream) × (get m.streams key ≡ some s)
      × (s.version ≡ version)
      × (pos (length s.segments) ≡ s.expected_segments)
      × (r.payload ≡ concat_payloads s.segments (indices 0 (length s.segments)))
      × (r.checksum ≡ digest_hex r.payload)
      × (checksum ≡ r.checksum)
      × ((finalize digest_hex ctx_err key version checksum audit now m).1 ≡ write key (sealed s) m)
finalize-sealed digest_hex ctx_err key version checksum audit now m {r} h e =
    elim (finalize-cases digest_hex ctx_err key version checksum audit now m) [
      | inl s ↦ absurd (ground arith)
      | inr (s, f, c, v, l, n, d, a, q) ↦
          let w : EntryIsValid (key, s) = All-get EntryIsValid m.streams key h.streams f in
          let same : record_of digest_hex key s now ≡ r = cc (ap (λ x. x.0) q) in
          (
            s,
            f,
            v,
            l,
            ap (λ x. x.payload) (sym same) ∙ assemble_complete s w.1 l,
            ap (λ x. x.checksum) (sym same) ∙ ap (λ x. digest_hex x.payload) same,
            d ∙ ap (λ x. x.checksum) same,
            ap (λ x. x.1) q,
          )
    ]

-- A Finalize with no context error succeeds on a valid manager whenever the stream is collecting, at
-- the expected version and has all its segments, the checksum is the digest of the payloads in the
-- order of their indices and not empty, and the audit, if there is one, accepts every record.
pub finalize_succeeds :
    (digest_hex : List ℕ → String) (key : String) (audit : Option (Record → Option Error)) (now : ℤ)
    (m : Manager) (s : Stream)
    → ManagerIsValid m
    → get m.streams key ≡ some s
    → s.state ≡ "collecting"
    → pos (length s.segments) ≡ s.expected_segments
    → digest_hex (concat_payloads s.segments (indices 0 (length s.segments))) ≢ ""
    → ((r : Record) → audited digest_hex audit r ≡ none)
    → succeeded
        (finalize digest_hex none key s.version
          (digest_hex (concat_payloads s.segments (indices 0 (length s.segments))))
          audit
          now
          m).0
      ≡ true
unfolding finalize
finalize_succeeds digest_hex key audit now m s v f c l d a =
    let whole : assemble s ≡ concat_payloads s.segments (indices 0 (length s.segments)) =
      assemble_complete s (All-get EntryIsValid m.streams key v.streams f).1 l in
    subst
      (λ payload.
        succeeded (finalize digest_hex none key s.version (digest_hex payload) audit now m).0
        ≡ true)
      whole
      (ground (
        arith,
        a (record_of digest_hex key s now),
        eq_iff s.state "collecting",
        (==ℤ_iff s.version s.version).1 refl,
        (==ℤ_iff (pos (length s.segments)) s.expected_segments).1 l,
        eq_refl (digest_hex (assemble s)),
        eq_iff (digest_hex (assemble s)) "",
        ap digest_hex whole,
      ))
