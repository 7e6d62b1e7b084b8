-- ===== src/Telemetry/Stream/Cases.antt =====
-- The outcomes of the manager's methods: what each one requires of the state and what it writes.
use ufo_observation_command.Base.{
  ℕ, ℤ, pos, not, ◌||◌, leb_ℤ, ◌≤ℤ◌, ◌<ℤ◌, ◌==ℤ◌, ==ℤ_iff, String, eq_iff, ◌==◌, Bool, true, false,
  ◌≡◌, ◌≢◌, refl, ◌⊎◌, inl, inr, Option, none, some, List, [], length, Dict, get, put, string_key,
  int_key, Error, ok, Result, Bool-cases, Option-cases, Result-cases, succeeded, arith,
}
use ufo_observation_command.Telemetry.Types.{Scope, Stream, Record}
use ufo_observation_command.Telemetry.Stream.{
  Manager, bad_segment, stream_key, clone_stream, new_stream, signal_locked, open_stream, append,
  with_segment, assemble, record_of, finalize, audited, sealed,
}

abbrev pub write : String → Stream → Manager → Manager
write key stream m = signal_locked (record m { streams = put m.streams key stream })

-- A method that fails leaves the manager as it is.
abbrev pub Refuses {ℓ} : {A : Type ℓ} → Manager → Result A × Manager → Type 0
Refuses m r = (succeeded r.0 ≡ false) × (r.1 ≡ m)

-- A method either leaves the manager as it is, or writes one stream.
abbrev pub Opens : Scope → ℤ → Dict String String → Manager → Result Stream × Manager → Type 0
Opens scope expected labels m r =
    (key : String) × (stream_key scope ≡ ok key)
    × (pos 0 <ℤ expected)
    × (get m.streams key ≡ none)
    × (r ≡ (
      ok (clone_stream (new_stream key scope expected labels)),
      write key (clone_stream (new_stream key scope expected labels)) m,
    ))

pub open_stream-cases :
    (scope : Scope) (expected : ℤ) (labels : Dict String String) (m : Manager)
    → ((open_stream scope expected labels m).1 ≡ m)
      ⊎ Opens scope expected labels m (open_stream scope expected labels m)
unfolding open_stream
open_stream-cases scope expected labels m = elim (Result-cases (stream_key scope)) [
  | inl (e, p) ↦ inl (rw (p, open_stream))
  | inr (key, p) ↦ elim (Bool-cases (leb_ℤ expected (pos 0))) [
    | inl t ↦ inl (ground arith)
    | inr f ↦ elim (Option-cases (get m.streams key)) [
      | inl q ↦ inr (key, p, ground arith, q, ground arith)
      | inr (old, q) ↦ inl (ground arith)
    ]
  ]
]

abbrev pub Appends : String → ℤ → String → List ℕ → Manager → Result Bool × Manager → Type 0
Appends key index digest payload m r =
    (stream : Stream) × (get m.streams key ≡ some stream)
    × (stream.state ≡ "collecting")
    × (pos 0 ≤ℤ index)
    × (index <ℤ stream.expected_segments)
    × (digest ≢ "")
    × (payload ≢ [])
    × (get stream.segments index ≡ none)
    × (r ≡ (
      ok true,
      write key (with_segment stream (record { index = index; digest = digest; payload = payload }))
          m,
    ))

pub append-cases :
    (ctx_err : Option Error) (key : String) (index : ℤ) (digest : String) (payload : List ℕ)
    (m : Manager)
    → ((append ctx_err key index digest payload m).1 ≡ m)
      ⊎ Appends key index digest payload m (append ctx_err key index digest payload m)
unfolding append
append-cases (some e) key index digest payload m = inl refl
append-cases none key index digest payload m = elim (Option-cases (get m.streams key)) [
  | inl p ↦ inl (rw (p, append))
  | inr (stream, p) ↦ elim (Bool-cases (stream.state == "collecting")) [
    | inl c ↦ elim (Bool-cases (bad_segment stream index digest payload)) [
      | inl t ↦ inl (ground arith)
      | inr f ↦ elim (Option-cases (get stream.segments index)) [
        | inl q ↦ inr (
          stream,
          p,
          (eq_iff _ _).0 c,
          ground arith,
          ground arith,
          ground (arith, eq_iff digest ""),
          ground arith,
          q,
          ground arith,
        )
        | inr (prior, q) ↦ inl (ground arith)
      ]
    ]
    | inr c ↦ inl (ground arith)
  ]
]

module _ (digest_hex : List ℕ → String) where
  abbrev pub Finalizes :
      String
      → ℤ
      → String
      → Option (Record → Option Error)
      → ℤ
      → Manager
      → Result Record × Manager
      → Type 0
  Finalizes key expected_version checksum audit now m r =
      (stream : Stream) × (get m.streams key ≡ some stream)
      × (stream.state ≡ "collecting")
      × (stream.version ≡ expected_version)
      × (pos (length stream.segments) ≡ stream.expected_segments)
      × (checksum ≢ "")
      × (checksum ≡ digest_hex (assemble stream))
      × (audited digest_hex audit (record_of digest_hex key stream now) ≡ none)
      × (r ≡ (ok (record_of digest_hex key stream now), write key (sealed stream) m))

  pub finalize-cases :
      (ctx_err : Option Error) (key : String) (expected_version : ℤ) (checksum : String)
      (audit : Option (Record → Option Error)) (now : ℤ) (m : Manager)
      → Refuses m (finalize digest_hex ctx_err key expected_version checksum audit now m)
        ⊎ Finalizes key expected_version checksum audit now m
            (finalize digest_hex ctx_err key expected_version checksum audit now m)
  unfolding finalize
  finalize-cases (some e) key expected_version checksum audit now m = inl (refl, refl)
  finalize-cases none key expected_version checksum audit now m =
      elim (Option-cases (get m.streams key)) [
        | inl p ↦ inl (ground arith, ground arith)
        | inr (stream, p) ↦ elim (Bool-cases (stream.state == "collecting")) [
          | inr c ↦ inl (ground arith, ground arith)
          | inl c ↦ elim (Bool-cases (stream.version ==ℤ expected_version)) [
            | inr v ↦ inl (ground arith, ground arith)
            | inl v ↦
                elim (Bool-cases (pos (length stream.segments) ==ℤ stream.expected_segments)) [
                  | inr l ↦ inl (ground arith, ground arith)
                  | inl l ↦
                      elim (Bool-cases
                        (checksum == "" || not (checksum == digest_hex (assemble stream)))) [
                          | inl d ↦ inl (ground arith, ground arith)
                          | inr d ↦
                              elim (Option-cases
                                (audited digest_hex audit (record_of digest_hex key stream now))) [
                                  | inr (e, a) ↦ inl (ground arith, ground arith)
                                  | inl a ↦ inr (
                                    stream,
                                    p,
                                    (eq_iff _ _).0 c,
                                    (==ℤ_iff _ _).0 v,
                                    (==ℤ_iff _ _).0 l,
                                    ground (arith, eq_iff checksum ""),
                                    ground (arith, eq_iff checksum (digest_hex (assemble stream))),
                                    a,
                                    ground arith,
                                  )
                                ]
                        ]
                ]
          ]
        ]
      ]
